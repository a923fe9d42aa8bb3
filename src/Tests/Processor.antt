-- ===== src/Tests/Processor.antt =====
-- The processor on the database of `Data`.
use arcpass.Prelude.{ℕ, ◌≡◌, refl, ◌≢◌, some, [], All, true, arith}
use arcpass.SponsorshipTypes.{SponsorshipStatus, pending, relayed}
use arcpass.Store.{SponsorshipRequest}
use arcpass.Worker.Tx.{transition_failed, max_relay_attempts, plain, invalid_transition}
use arcpass.Worker.Lifecycle.{find_request, default_max_relay_attempts}
use arcpass.Worker.Processor.{process_request, failed_result}
use arcpass.Worker.Processor.Accounting.{IsBalanced}
use arcpass.Worker.Processor.Liveness.{Goal, process_request-settles}
use arcpass.Worker.Processor.Limits.{process_request-stuck_pending, process_request-stuck_relayed}
use arcpass.Worker.Processor.Results.{Told, process_request-result, process_request-IsBalanced}
use arcpass.Worker.Processor.Safety.{process_request-Evolves, process_request-IsStamped}
use arcpass.Worker.Processor.{select_for_update}
use arcpass.Worker.Steps.Safety.{Evolves, IsStamped}
use arcpass.Tests.Data.{request, state, host, confirming, refusing, unlocked, three_failed}

process_request-Evolves_example :
    ((r' : SponsorshipRequest) × (find_request 2
          (process_request host confirming unlocked true 5 2 (state pending [])).1.db
        ≡ some r')
      × Evolves (request 2 7 pending) r')
    × ((j : ℕ)
        → j ≢ 2
        → find_request j (process_request host confirming unlocked true 5 2 (state pending [])).1.db
          ≡ find_request j (state pending []).db)
process_request-Evolves_example =
    process_request-Evolves host confirming unlocked true 5 2 (state pending [])
      (request 2 7 pending) refl

process_request-IsStamped_example :
    All IsStamped
      (process_request host confirming unlocked true 5 2 (state pending [])).1.db.requests
process_request-IsStamped_example =
    process_request-IsStamped host confirming unlocked true 5 2 (state pending [])
      ((refl, refl, refl, refl), ((refl, refl, refl, refl), tt))

state-IsBalanced : IsBalanced (state pending []).db
state-IsBalanced v = ground arith

process_request-IsBalanced_example :
    IsBalanced (process_request host confirming unlocked true 5 2 (state pending [])).1.db
process_request-IsBalanced_example =
    process_request-IsBalanced host confirming unlocked true 5 2 (state pending []) state-IsBalanced

process_request-result_example :
    Told 2
      (state pending []).db
      (process_request host refusing unlocked true 5 2 (state pending []))
unfolding select_for_update
process_request-result_example =
    process_request-result host refusing unlocked true 5 2 (state pending []) (request 2 7 pending)
      refl

process_request-settles_example :
    Goal 2 7 100 1 []
      (record { request_id = 2; relay_id = 100; attempt = 1 })
      (confirming (state pending []).db)
      (process_request host confirming unlocked true 5 2 (state pending []))
unfolding select_for_update
process_request-settles_example =
    process_request-settles host confirming unlocked 5 2 (state pending []) (request 2 7 pending)
      (arcpass.Tests.Data.wallet 7 1) refl refl refl refl refl (omega arith) (omega arith) refl

process_request-stuck_pending_example :
    ((process_request host confirming unlocked true 3 2 (state pending three_failed)).0
      ≡ failed_result 2 (
          transition_failed SponsorshipStatus.failed plain
            (invalid_transition pending SponsorshipStatus.failed)))
    × ((process_request host confirming unlocked true 3 2 (state pending three_failed)).1.db
        ≡ (state pending three_failed).db)
unfolding select_for_update
process_request-stuck_pending_example =
    process_request-stuck_pending host confirming unlocked true 3 2 (state pending three_failed)
      (request 2 7 pending) refl refl refl refl (omega arith)

process_request-stuck_relayed_example :
    ((process_request host confirming unlocked true 5 2 (state relayed three_failed)).0
      ≡ failed_result 2 (max_relay_attempts default_max_relay_attempts 2))
    × ((process_request host confirming unlocked true 5 2 (state relayed three_failed)).1.db
        ≡ (state relayed three_failed).db)
unfolding select_for_update
process_request-stuck_relayed_example =
    process_request-stuck_relayed host confirming unlocked true 5 2 (state relayed three_failed)
      (request 2 7 relayed) refl refl refl refl (omega arith) (omega arith)
