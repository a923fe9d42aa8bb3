-- ===== src/Worker/Config/Checks.antt =====
-- What a variable that passes its checks satisfies.
use arcpass.Prelude.{
  ℕ, ◌≤◌, ◌<◌, ◌≡◌, refl, Bool, true, false, not, ◌&&◌, ◌||◌, Option, none, some, List, [], ◌∷◌,
  ◌++◌, Text, codes, trim, ends_with, ends_with-append, leb, length, arith, if◌then◌else◌, inl, inr,
  Bool-cases,
}
use arcpass.Worker.Config.{
  Var, Env, Numbers, BigNumber, is_blank, trimmed, is_empty, push_if, check_format, unique,
  normalize_trailing_slash, Parsed, read_big_int, parse_numeric, validate_range, numeric,
}

pub append-eq-nil : {A : Type 0} (xs ys : List A) → xs ++ ys ≡ [] → (xs ≡ []) × (ys ≡ [])
append-eq-nil [] ys h = (refl, h)
append-eq-nil (x ∷ xs) ys h = cc

pub push_if-eq-nil : (b : Bool) (v : Var) → push_if b v ≡ [] → b ≡ false
push_if-eq-nil true v h = cc
push_if-eq-nil false v h = refl

pub unique-eq-nil : (vs : List Var) → unique vs ≡ [] → vs ≡ []
unique-eq-nil [] h = refl
unique-eq-nil (v ∷ vs) h = cc

pub present : (o : Option Text) → is_blank o ≡ false → is_empty (trimmed o) ≡ false
present none h = cc
present (some t) h = nonempty (trim t) h
  where
    nonempty : (s : Text) → leb (length s) 0 ≡ false → is_empty s ≡ false
    nonempty [] h = ground arith
    nonempty (c ∷ s) h = refl

pub format_fits :
    (fits : Bool) (text : Text) (v : Var)
    → is_empty text ≡ false
    → check_format fits text v ≡ []
    → fits ≡ true
format_fits true text v p h = refl
format_fits false text v p h = ground (arith, push_if-eq-nil (not (is_empty text) && true) v)

pub ends_with-normalize : (url : Text) → ends_with (normalize_trailing_slash url) (codes "/") ≡ true
unfolding normalize_trailing_slash
ends_with-normalize url = elim (Bool-cases (ends_with url (codes "/"))) [
  | inl h ↦ rw h h
  | inr h ↦ rw h (ends_with-append url (codes "/"))
]

pub positive :
    (to_big_int : Text → Option BigNumber) (v : Var) (default : ℕ) (raw : Option Text)
    → 0 < default
    → (read_big_int to_big_int v default raw).errors ≡ []
    → 0 < (read_big_int to_big_int v default raw).value
positive to_big_int v default none d h = d
positive to_big_int v default (some raw) d h = ground arith

module _ (n : Numbers) where
  open n use {Num, numeral, lt}

  -- What the comparison of two numerals is documented to be.
  abbrev pub ComparesNumerals : Type 0
  ComparesNumerals = (a b : ℕ) → a ≤ b → lt (numeral b) (numeral a) ≡ false

  abbrev pub InRange : ℕ → ℕ → Num → Type 0
  InRange min max value = (lt value (numeral min) ≡ false) × (lt (numeral max) value ≡ false)

  pub numeric-InRange :
      (env : Env) (v : Var) (default min max : ℕ)
      → ComparesNumerals
      → min ≤ default
      → default ≤ max
      → (numeric n env v default min max).errors ≡ []
      → InRange min max (numeric n env v default min max).value
  unfolding numeric
  numeric-InRange env v default min max compares low high h = by_raw (env v) h
    where
      parsed : Bool → Bool → Num → Parsed Num
      parsed e m x =
          if e
          then record { value = numeral default; errors = [] }
          else if m
          then record { value = numeral default; errors = v ∷ [] }
          else record { value = x; errors = [] }

      test : (a b : Bool) → push_if (a || b) v ≡ [] → (a ≡ false) × (b ≡ false)
      test true b h = cc
      test false true h = cc
      test false false h = (refl, refl)

      by_tests :
          (e m : Bool) (x : Num)
          → (parsed e m x).errors
              ++ push_if
                  (not e
                    && (lt (parsed e m x).value (numeral min)
                        || lt (numeral max) (parsed e m x).value))
                  v
            ≡ []
          → InRange min max (parsed e m x).value
      by_tests true m x h = (compares min default low, compares default max high)
      by_tests false true x h = cc
      by_tests false false x h = test (lt x (numeral min)) (lt (numeral max) x) h

      by_raw :
          (raw : Option Text)
          → (parse_numeric n v default raw).errors
              ++ validate_range n v raw (parse_numeric n v default raw).value min max
            ≡ []
          → InRange min max (parse_numeric n v default raw).value
      by_raw none h = (compares min default low, compares default max high)
      by_raw (some raw) h = by_tests (is_empty raw) (n.is_nan (n.to_number raw)) (n.to_number raw) h
