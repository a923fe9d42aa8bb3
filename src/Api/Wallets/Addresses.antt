-- ===== src/Api/Wallets/Addresses.antt =====
-- The normal form of a wallet address: trimmed, in lower case, and the same when it is normalised again.
use arcpass.Prelude.{
  ℕ, suc, ◌+◌, ◌<◌, ◌≡◌, refl, sym, ◌∙◌, ◌⊎◌, ◌↔◌, ap, ap₂, subst, true, false, ◌&&◌, and-true_left,
  and-true_right, leb, some, [], ◌∷◌, Text, starts_with, trim, is_space, skip_spaces, to_lower,
  length, arith, if◌then◌else◌, Bool-cases, inl, inr, All,
}
use mathlib.Core.List.{reverse, reverse_aux, reverse-reverse}
use arcpass.Worker.Config.{is_hex_text, is_hex_digit, all_chars}
use arcpass.Api.Errors.{ok}
use arcpass.Api.Wallets.{is_wallet_address, is_valid_wallet_address, normalize_wallet_address}

abbrev lower : ℕ → ℕ
lower c = if leb b'A' c && leb c b'Z' then c + 32 else c

lower-lower : (c : ℕ) → lower (lower c) ≡ lower c
lower-lower c = ground arith

is_hex_digit-lower : (c : ℕ) → is_hex_digit c ≡ true → is_hex_digit (lower c) ≡ true
is_hex_digit-lower c h = ground arith

is_space-hex : (c : ℕ) → is_hex_digit c ≡ true → is_space c ≡ false
unfolding is_space
is_space-hex c h = ground arith

to_lower-to_lower : (s : Text) → to_lower (to_lower s) ≡ to_lower s
unfolding to_lower
to_lower-to_lower [] = refl
to_lower-to_lower (c ∷ s) = ap₂ (λ d t. d ∷ t) (lower-lower c) (to_lower-to_lower s)

length-to_lower : (s : Text) → length (to_lower s) ≡ length s
unfolding to_lower
length-to_lower [] = refl
length-to_lower (c ∷ s) = ap suc (length-to_lower s)

all_chars-to_lower :
    (s : Text) → all_chars is_hex_digit s ≡ true → all_chars is_hex_digit (to_lower s) ≡ true
unfolding to_lower
all_chars-to_lower [] h = refl
all_chars-to_lower (c ∷ s) h =
    rw (is_hex_digit-lower c (and-true_left (is_hex_digit c) (all_chars is_hex_digit s) h))
      (all_chars-to_lower s (and-true_right (is_hex_digit c) (all_chars is_hex_digit s) h))

address_parts :
    (c d : ℕ) (s : Text)
    → is_wallet_address (c ∷ d ∷ s) ≡ true
    → (c ≡ b'0') × (d ≡ b'x') × (length s ≡ 40) × (all_chars is_hex_digit s ≡ true)
unfolding is_wallet_address is_hex_text starts_with
address_parts c d s h = (ground arith, ground arith, ground arith, ground arith)

is_wallet_address-to_lower :
    (s : Text) → is_wallet_address s ≡ true → is_wallet_address (to_lower s) ≡ true
unfolding is_wallet_address is_hex_text starts_with to_lower
is_wallet_address-to_lower [] h = cc
is_wallet_address-to_lower (c ∷ []) h = absurd (ground arith)
is_wallet_address-to_lower (c ∷ d ∷ s) h =
    let (zero_char, x_char, forty, hex) = address_parts c d s h in
    rw (zero_char, x_char, length-to_lower s, forty, all_chars-to_lower s hex) refl

-- A text without spaces is trimmed.
abbrev IsSolid : Text → Type 0
IsSolid s = All (λ c. is_space c ≡ false) s

skip_spaces-IsSolid : (s : Text) → IsSolid s → skip_spaces s ≡ s
skip_spaces-IsSolid [] h = refl
skip_spaces-IsSolid (c ∷ s) h = rw h.0 refl

IsSolid-reverse_aux : (s t : Text) → IsSolid s → IsSolid t → IsSolid (reverse_aux s t)
IsSolid-reverse_aux [] t h k = k
IsSolid-reverse_aux (c ∷ s) t h k = IsSolid-reverse_aux s (c ∷ t) h.1 (h.0, k)

IsSolid-reverse : (s : Text) → IsSolid s → IsSolid (reverse s)
IsSolid-reverse s h = IsSolid-reverse_aux s [] h tt

trim-IsSolid : (s : Text) → IsSolid s → trim s ≡ s
unfolding trim
trim-IsSolid s h =
    rw (skip_spaces-IsSolid s h, skip_spaces-IsSolid (reverse s) (IsSolid-reverse s h))
      (reverse-reverse s)

IsSolid-hex : (s : Text) → all_chars is_hex_digit s ≡ true → IsSolid s
IsSolid-hex [] h = tt
IsSolid-hex (c ∷ s) h = (
  is_space-hex c (and-true_left (is_hex_digit c) (all_chars is_hex_digit s) h),
  IsSolid-hex s (and-true_right (is_hex_digit c) (all_chars is_hex_digit s) h),
)

is_wallet_address-IsSolid : (s : Text) → is_wallet_address s ≡ true → IsSolid s
unfolding is_wallet_address is_hex_text starts_with is_space
is_wallet_address-IsSolid [] h = tt
is_wallet_address-IsSolid (c ∷ []) h = absurd (ground arith)
is_wallet_address-IsSolid (c ∷ d ∷ s) h =
    let (zero_char, x_char, forty, hex) = address_parts c d s h in
    (rw zero_char refl, (rw x_char refl, IsSolid-hex s hex))

normalized :
    (text address : Text)
    → normalize_wallet_address (some text) ≡ ok address
    → (is_wallet_address (trim text) ≡ true) × (to_lower (trim text) ≡ address)
unfolding normalize_wallet_address
normalized text address h = elim (Bool-cases (is_wallet_address (trim text))) [
  | inl valid ↦ (valid, cc)
  | inr invalid ↦ cc
]

-- No capital letter.
abbrev pub IsLower : Text → Type 0
IsLower s = All (λ c. (c < b'A') ⊎ (b'Z' < c)) s

lower-IsLower : (c : ℕ) → (lower c < b'A') ⊎ (b'Z' < lower c)
lower-IsLower c = elim (Bool-cases (leb b'A' c && leb c b'Z')) [
  | inl capital ↦ rw capital (inr (ground (arith, capital)))
  | inr small ↦ rw small (elim (Bool-cases (leb b'A' c)) [
    | inl above ↦ inr (ground (arith, small, above))
    | inr below ↦ inl (ground (arith, below))
  ])
]

to_lower-IsLower : (s : Text) → IsLower (to_lower s)
unfolding to_lower
to_lower-IsLower [] = tt
to_lower-IsLower (c ∷ s) = (lower-IsLower c, to_lower-IsLower s)

normal-valid :
    (text address : Text)
    → normalize_wallet_address (some text) ≡ ok address
    → (is_valid_wallet_address (some address) ≡ true)
      × (normalize_wallet_address (some address) ≡ ok address)
unfolding normalize_wallet_address is_valid_wallet_address
normal-valid text address h =
    let (valid, same) = normalized text address h in
    let valid_lower = is_wallet_address-to_lower (trim text) valid in
    let trimmed =
      trim-IsSolid (to_lower (trim text))
        (is_wallet_address-IsSolid (to_lower (trim text)) valid_lower) in
    subst
      (λ a. (is_valid_wallet_address (some a) ≡ true) × (normalize_wallet_address (some a) ≡ ok a))
      same
      (
        rw (trimmed, valid_lower) refl,
        rw (trimmed, valid_lower, to_lower-to_lower (trim text)) refl,
      )

-- Where two texts normalise to addresses, the address of the first is valid, has no capital letter
-- and is the same when it is normalised again, and the two addresses are one exactly if the texts
-- differ at most in the case of letters and in the spaces around them.
pub normalize-normalize :
    (text other address other_address : Text)
    → normalize_wallet_address (some text) ≡ ok address
    → normalize_wallet_address (some other) ≡ ok other_address
    → (is_valid_wallet_address (some address) ≡ true)
      × (normalize_wallet_address (some address) ≡ ok address)
      × IsLower address
      × ((address ≡ other_address) ↔ (to_lower (trim text) ≡ to_lower (trim other)))
normalize-normalize text other address other_address h k =
    let (valid, same) = normal-valid text address h in
    let e = (normalized text address h).1 in
    let e' = (normalized other other_address k).1 in
    (
      valid,
      same,
      subst IsLower e (to_lower-IsLower (trim text)),
      (λ one. e ∙ one ∙ sym e', λ one. sym e ∙ one ∙ e'),
    )
