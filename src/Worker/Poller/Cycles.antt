-- ===== src/Worker/Poller/Cycles.antt =====
-- What the machine of timers and promises keeps, if it is started once, as the worker does.
use arcpass.Prelude.{
  ℕ, zero, suc, ◌+◌, ◌≡◌, refl, ◌≢◌, Bool, true, false, Option, none, some, List, [], ◌∷◌, All,
  length, if◌then◌else◌, arith, ap, ◌∙◌,
}
use arcpass.Worker.Poller.{
  Cycle, querying, processing, Poller, create_poller, poll_cycle, schedule_next_cycle, next_request,
  start, stop, take_out, Event, starts, stops, timer_fires, query_returns, query_fails,
  request_ends, on_query, on_request, handle, handle_all,
}

-- While it runs, there is either a timer or one cycle in flight, and no open promise of `stop()`.
-- While it does not, there is no timer, at most one cycle, and `stop()` waits exactly for that.
abbrev Fits : (is_running timer has_promise stop_waits : Bool) → ℕ → Type 0
Fits true timer has_promise stop_waits n =
    (n + (if timer then 1 else 0) ≡ 1) × (stop_waits ≡ false) × (has_promise ≡ true)
Fits false timer has_promise stop_waits n = (timer ≡ false) × (n ≡ (if stop_waits then 1 else 0))

abbrev pub IsSound : Poller → Type 0
IsSound p = Fits p.is_running p.timer p.has_promise p.stop_waits (length p.cycles)

-- A cycle that ends or goes on to a request.
next_request-IsSound :
    (ids : List ℕ) (p : Poller) (c : Cycle)
    → p.cycles ≡ c ∷ []
    → IsSound p
    → IsSound (next_request ids (record p { cycles = [] }))
unfolding next_request schedule_next_cycle
next_request-IsSound [] p c one h = ground (arith, ap length one)
next_request-IsSound (id ∷ ids) p c one h = ground (arith, ap length one)

many_cycles : (p : Poller) (c d : Cycle) (cs : List Cycle) → p.cycles ≡ c ∷ d ∷ cs → IsSound p → ⊥
many_cycles p c d cs many h = ground (arith, ap length many)

on_query-IsSound :
    (ids : List ℕ) (p : Poller) (i : ℕ) (cs : List Cycle)
    → p.cycles ≡ cs
    → IsSound p
    → IsSound (on_query ids p (take_out i cs))
on_query-IsSound ids p i [] e h = h
on_query-IsSound ids p zero (querying ∷ []) e h = next_request-IsSound ids p querying e h
on_query-IsSound ids p zero (processing id r ∷ []) e h = h
on_query-IsSound ids p (suc i) (c ∷ []) e h = h
on_query-IsSound ids p i (c ∷ d ∷ cs) e h = absurd (many_cycles p c d cs e h)

on_request-IsSound :
    (p : Poller) (i : ℕ) (cs : List Cycle)
    → p.cycles ≡ cs
    → IsSound p
    → IsSound (on_request p (take_out i cs))
on_request-IsSound p i [] e h = h
on_request-IsSound p zero (querying ∷ []) e h = h
on_request-IsSound p zero (processing id r ∷ []) e h =
    next_request-IsSound r p (processing id r) e h
on_request-IsSound p (suc i) (c ∷ []) e h = h
on_request-IsSound p i (c ∷ d ∷ cs) e h = absurd (many_cycles p c d cs e h)

handle-IsSound : (e : Event) (p : Poller) → e ≢ starts → IsSound p → IsSound (handle e p)
unfolding handle
handle-IsSound starts p n h = absurd (n refl)
handle-IsSound stops p n h = ground arith
handle-IsSound timer_fires p n h = ground arith
handle-IsSound (query_returns i ids) p n h = on_query-IsSound ids p i p.cycles refl h
handle-IsSound (query_fails i) p n h = on_query-IsSound [] p i p.cycles refl h
handle-IsSound (request_ends i) p n h = on_request-IsSound p i p.cycles refl h

handle_all-IsSound :
    (es : List Event) (p : Poller)
    → All (λ e. e ≢ starts) es
    → IsSound p
    → IsSound (handle_all es p)
unfolding handle_all
handle_all-IsSound [] p n h = h
handle_all-IsSound (e ∷ es) p n h =
    handle_all-IsSound es (handle e p) n.1 (handle-IsSound e p n.0 h)

-- After one start and whatever else happens, in any order: at most one poll cycle is in flight,
-- and none beside a set timer, so cycles do not overlap; while the poller runs there is a timer or
-- a cycle, so polling goes on; and once it is stopped no timer is set, and the promise of `stop()`
-- is open exactly while a cycle is in flight.
pub started_once-IsSound :
    (es : List Event) → All (λ e. e ≢ starts) es → IsSound (handle_all es (start create_poller))
unfolding start poll_cycle
started_once-IsSound es n = handle_all-IsSound es (start create_poller) n (omega arith, refl, refl)

-- Stopped, with the same calls of `processRequest` as before.
abbrev pub IsQuiet : Poller → Poller → Type 0
IsQuiet p q = (q.is_running ≡ false) × (q.dispatched ≡ p.dispatched)

next_request-IsQuiet :
    (ids : List ℕ) (p : Poller) (cs : List Cycle)
    → p.is_running ≡ false
    → IsQuiet p (next_request ids (record p { cycles = cs }))
unfolding next_request schedule_next_cycle
next_request-IsQuiet [] p cs h = ground arith
next_request-IsQuiet (id ∷ ids) p cs h = ground arith

on_query-IsQuiet :
    (ids : List ℕ) (p : Poller) (o : Option (Cycle × List Cycle))
    → p.is_running ≡ false
    → IsQuiet p (on_query ids p o)
on_query-IsQuiet ids p (some (querying, cs)) h = next_request-IsQuiet ids p cs h
on_query-IsQuiet ids p (some (processing id r, cs)) h = (h, refl)
on_query-IsQuiet ids p none h = (h, refl)

on_request-IsQuiet :
    (p : Poller) (o : Option (Cycle × List Cycle))
    → p.is_running ≡ false
    → IsQuiet p (on_request p o)
on_request-IsQuiet p (some (querying, cs)) h = (h, refl)
on_request-IsQuiet p (some (processing id r, cs)) h = next_request-IsQuiet r p cs h
on_request-IsQuiet p none h = (h, refl)

handle-IsQuiet :
    (e : Event) (p : Poller) → e ≢ starts → p.is_running ≡ false → IsQuiet p (handle e p)
unfolding handle
handle-IsQuiet starts p n h = absurd (n refl)
handle-IsQuiet stops p n h = ground arith
handle-IsQuiet timer_fires p n h = ground arith
handle-IsQuiet (query_returns i ids) p n h = on_query-IsQuiet ids p (take_out i p.cycles) h
handle-IsQuiet (query_fails i) p n h = on_query-IsQuiet [] p (take_out i p.cycles) h
handle-IsQuiet (request_ends i) p n h = on_request-IsQuiet p (take_out i p.cycles) h

handle_all-IsQuiet :
    (es : List Event) (p : Poller)
    → All (λ e. e ≢ starts) es
    → p.is_running ≡ false
    → IsQuiet p (handle_all es p)
unfolding handle_all
handle_all-IsQuiet [] p n h = (h, refl)
handle_all-IsQuiet (e ∷ es) p n h =
    let (stopped, same) = handle-IsQuiet e p n.0 h in
    let (still, all_same) = handle_all-IsQuiet es (handle e p) n.1 stopped in
    (still, all_same ∙ same)

-- After `stop()`, in whatever state the poller was, no further request is given to the processor
-- and the poller does not run, whatever happens but another start.
pub stop-IsQuiet :
    (es : List Event) (p : Poller) → All (λ e. e ≢ starts) es → IsQuiet p (handle_all es (stop p))
unfolding stop
stop-IsQuiet es p n =
    let (running, same) = stop_stops p in
    let (still, all_same) = handle_all-IsQuiet es (stop p) n running in (still, all_same ∙ same)
  where
    stop_stops : (p : Poller) → IsQuiet p (stop p)
    stop_stops p = ground arith
