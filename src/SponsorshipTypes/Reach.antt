-- ===== src/SponsorshipTypes/Reach.antt =====
-- Which statuses can follow one another over any number of transitions.
use arcpass.Prelude.{◌≡◌, true}
use arcpass.SponsorshipTypes.{SponsorshipStatus, is_valid_sponsorship_transition}

-- Zero or more transitions of the table.
pub data Reach : SponsorshipStatus → SponsorshipStatus → Type 0 where
  here : {a : SponsorshipStatus} → Reach a a
  step :
      {a b c : SponsorshipStatus}
      → is_valid_sponsorship_transition a b ≡ true
      → Reach b c
      → Reach a c

pub Reach-trans : {a b c : SponsorshipStatus} → Reach a b → Reach b c → Reach a c
Reach-trans here r = r
Reach-trans (step v q) r = step v (Reach-trans q r)
