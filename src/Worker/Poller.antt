-- ===== src/Worker/Poller.antt =====
-- apps/worker/src/poller.ts: the query for the requests that can be processed, and the machine of
-- timers and promises that takes them to the processor one by one.
pub mod Query
pub mod Cycles
use arcpass.Prelude.{
  ℕ, zero, suc, Bool, true, false, not, ◌&&◌, ◌||◌, Option, none, some, List, [], ◌∷◌, ◌++◌, take,
  if◌then◌else◌,
}
use arcpass.SponsorshipTypes.{pending, relayed, sponsorship_eq}
use arcpass.Store.{Database, SponsorshipRequest}
use arcpass.Worker.Processor.{find_active_relay}

abbrev pub is_absent : {A : Type 0} → Option A → Bool
is_absent none = true
is_absent (some a) = false

-- The `WHERE`: pending, or relayed with no submitted or confirmed relay transaction.
unfoldable pub is_due : Database → SponsorshipRequest → Bool
is_due db r =
    sponsorship_eq r.status pending
    || (sponsorship_eq r.status relayed && is_absent (find_active_relay r.id db))

abbrev pub keep_if : (SponsorshipRequest → Bool) → List SponsorshipRequest → List SponsorshipRequest
keep_if p [] = []
keep_if p (r ∷ rs) = if p r then r ∷ keep_if p rs else keep_if p rs

-- The poll query. `order_by` is the database's `ORDER BY "requestedAt" ASC`.
unfoldable pub poll_query :
    (List SponsorshipRequest → List SponsorshipRequest) → ℕ → Database → List SponsorshipRequest
poll_query order_by batch_size db = take batch_size (order_by (keep_if (is_due db) db.requests))

-- A poll cycle that is in flight waits for its query, or for the request at the head of what is
-- left of its batch.
pub data Cycle : Type 0 where
  querying : Cycle
  processing : ℕ → List ℕ → Cycle

pub record Poller : Type 0 where
  -- `isRunning`
  pub is_running : Bool
  -- `timeoutId !== null`
  pub timer : Bool
  -- `processingPromise !== null`, which it is from the first start on
  pub has_promise : Bool
  -- `stopResolve !== null`: a promise of `stop()` is open
  pub stop_waits : Bool
  pub cycles : List Cycle
  -- the calls of `processRequest`
  pub dispatched : List ℕ

abbrev pub create_poller : Poller
create_poller = record {
  is_running = false;
  timer = false;
  has_promise = false;
  stop_waits = false;
  cycles = [];
  dispatched = [];
}

-- `pollCycle` up to its first `await`.
unfoldable pub poll_cycle : Poller → Poller
poll_cycle p = if p.is_running then record p { cycles = querying ∷ p.cycles } else p

-- `scheduleNextCycle`, at the end of a cycle that is already taken off the list.
unfoldable pub schedule_next_cycle : Poller → Poller
schedule_next_cycle p =
    if p.is_running then record p { timer = true } else record p { stop_waits = false }

-- The head of the `for` loop, with `ids` left.
unfoldable pub next_request : List ℕ → Poller → Poller
unfolding schedule_next_cycle
next_request [] p = schedule_next_cycle p
next_request (id ∷ ids) p =
    if p.is_running
    then record p { cycles = processing id ids ∷ p.cycles; dispatched = p.dispatched ++ id ∷ [] }
    else schedule_next_cycle p

unfoldable pub start : Poller → Poller
unfolding poll_cycle
start p =
    if p.is_running then p else poll_cycle (record p { is_running = true; has_promise = true })

unfoldable pub stop : Poller → Poller
stop p =
    if not p.is_running
    then p
    else if p.timer
    then record p { is_running = false; timer = false }
    else record p { is_running = false; stop_waits = p.has_promise }

-- The cycle at a position, and the others.
abbrev pub take_out : ℕ → List Cycle → Option (Cycle × List Cycle)
take_out i [] = none
take_out zero (c ∷ cs) = some (c, cs)
take_out (suc i) (c ∷ cs) = elim (take_out i cs) [ none ↦ none | some (d, ds) ↦ some (d, c ∷ ds) ]

-- What the event loop brings: the calls, the timer, and the answers that the cycles wait for. An
-- error of the query ends the cycle, as an empty batch does; how a request turns out is not looked
-- at, also if `processRequest` throws.
pub data Event : Type 0 where
  starts stops timer_fires : Event
  query_returns : ℕ → List ℕ → Event
  query_fails request_ends : ℕ → Event

abbrev pub on_query : List ℕ → Poller → Option (Cycle × List Cycle) → Poller
on_query ids p (some (querying, others)) = next_request ids (record p { cycles = others })
on_query ids p _ = p

abbrev pub on_request : Poller → Option (Cycle × List Cycle) → Poller
on_request p (some (processing id ids, others)) = next_request ids (record p { cycles = others })
on_request p _ = p

-- An event that cannot occur, as a timer that is not set, changes nothing.
unfoldable pub handle : Event → Poller → Poller
unfolding start stop poll_cycle next_request schedule_next_cycle
handle starts p = start p
handle stops p = stop p
handle timer_fires p = if p.timer then poll_cycle (record p { timer = false }) else p
handle (query_returns i ids) p = on_query ids p (take_out i p.cycles)
handle (query_fails i) p = on_query [] p (take_out i p.cycles)
handle (request_ends i) p = on_request p (take_out i p.cycles)

unfoldable pub handle_all : List Event → Poller → Poller
handle_all [] p = p
handle_all (e ∷ es) p = handle_all es (handle e p)
