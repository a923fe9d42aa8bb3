-- ===== src/SponsorshipTypes.antt =====
-- packages/shared/src/sponsorship-types.ts: the statuses of sponsorship requests and of relay
-- transactions, and the tables of the transitions that each status allows.
pub mod Reach
use arcpass.Prelude.{Bool, true, false, List, [], ◌∷◌, any}

pub data SponsorshipStatus : Type 0 where
  pending approved rejected relayed completed failed : SponsorshipStatus

pub data RelayStatus : Type 0 where
  queued submitted confirmed failed : RelayStatus

-- `===` on the values of the two types.
abbrev pub sponsorship_eq : SponsorshipStatus → SponsorshipStatus → Bool
sponsorship_eq pending pending = true
sponsorship_eq approved approved = true
sponsorship_eq rejected rejected = true
sponsorship_eq relayed relayed = true
sponsorship_eq completed completed = true
sponsorship_eq SponsorshipStatus.failed SponsorshipStatus.failed = true
sponsorship_eq _ _ = false

abbrev pub relay_eq : RelayStatus → RelayStatus → Bool
relay_eq queued queued = true
relay_eq submitted submitted = true
relay_eq confirmed confirmed = true
relay_eq RelayStatus.failed RelayStatus.failed = true
relay_eq _ _ = false

-- `VALID_SPONSORSHIP_TRANSITIONS`.
unfoldable pub valid_sponsorship_transitions : SponsorshipStatus → List SponsorshipStatus
valid_sponsorship_transitions pending = approved ∷ rejected ∷ []
valid_sponsorship_transitions approved = relayed ∷ []
valid_sponsorship_transitions relayed = completed ∷ SponsorshipStatus.failed ∷ []
valid_sponsorship_transitions rejected = []
valid_sponsorship_transitions completed = []
valid_sponsorship_transitions SponsorshipStatus.failed = []

-- `VALID_RELAY_TRANSITIONS`.
unfoldable pub valid_relay_transitions : RelayStatus → List RelayStatus
valid_relay_transitions queued = submitted ∷ RelayStatus.failed ∷ []
valid_relay_transitions submitted = confirmed ∷ RelayStatus.failed ∷ []
valid_relay_transitions confirmed = []
valid_relay_transitions RelayStatus.failed = []

unfoldable pub is_valid_sponsorship_transition : SponsorshipStatus → SponsorshipStatus → Bool
unfolding valid_sponsorship_transitions
is_valid_sponsorship_transition current new =
    any (sponsorship_eq new) (valid_sponsorship_transitions current)

unfoldable pub is_valid_relay_transition : RelayStatus → RelayStatus → Bool
unfolding valid_relay_transitions
is_valid_relay_transition current new = any (relay_eq new) (valid_relay_transitions current)
