-- ===== src/Tests/Polling.antt =====
-- The poller.
use arcpass.Prelude.{◌≤◌, ◌≡◌, refl, ◌⊎◌, ◌≢◌, List, [], ◌∷◌, All, length, arith}
use mathlib.Core.List.{Memᴰ}
use mathlib.Core.List.Permᴰ
use arcpass.SponsorshipTypes.{pending}
use arcpass.Store.{Database, SponsorshipRequest}
use arcpass.Worker.Poller.{
  is_due, keep_if, poll_query, create_poller, start, stop, Event, stops, timer_fires, query_returns,
  request_ends, handle_all, handle,
}
use arcpass.Worker.Poller.Query.{IsOrdering, IsDue, Waits, poll_query-batch}
use arcpass.Worker.Poller.Cycles.{IsSound, started_once-IsSound, IsQuiet, stop-IsQuiet}
use arcpass.Tests.Data.{request, state}

abbrev as_is : List SponsorshipRequest → List SponsorshipRequest
as_is rs = rs

abbrev two_due : Database
two_due = record (state pending []).db { requests = request 2 7 pending ∷ request 3 8 pending ∷ [] }

two_due-IsOrdering :
    IsOrdering
      (as_is (keep_if (is_due two_due) two_due.requests))
      (keep_if (is_due two_due) two_due.requests)
unfolding is_due
two_due-IsOrdering = record { sorted = ((omega arith, tt), (tt, tt)); same = Permᴰ.refl _ }

poll_query-batch_example :
    (length (poll_query as_is 1 two_due) ≤ 1)
    × All (λ r. IsDue two_due r × Memᴰ r two_due.requests) (poll_query as_is 1 two_due)
    × All (λ q. ¬ IsDue two_due q ⊎ Waits 1 (poll_query as_is 1 two_due) q) two_due.requests
poll_query-batch_example = poll_query-batch as_is 1 two_due two_due-IsOrdering

abbrev day : List Event
day = query_returns 0 (5 ∷ 6 ∷ []) ∷ request_ends 0 ∷ stops ∷ request_ends 0 ∷ timer_fires ∷ []

day-no_start : All (λ e. e ≢ Event.starts) day
day-no_start = ((λ e. cc), ((λ e. cc), ((λ e. cc), ((λ e. cc), ((λ e. cc), tt)))))

started_once-IsSound_example : IsSound (handle_all day (start create_poller))
started_once-IsSound_example = started_once-IsSound day day-no_start

stop-IsQuiet_example : IsQuiet (start create_poller) (handle_all day (stop (start create_poller)))
stop-IsQuiet_example = stop-IsQuiet day (start create_poller) day-no_start

day_dispatches : (handle_all day (start create_poller)).dispatched ≡ 5 ∷ 6 ∷ []
unfolding handle_all handle start
day_dispatches = refl
