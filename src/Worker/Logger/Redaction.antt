-- ===== src/Worker/Logger/Redaction.antt =====
-- What a filtered record holds.
use arcpass.Prelude.{
  ℕ, ◌↔◌, ◌+◌, ◌<◌, ◌≡◌, refl, true, false, leb, if◌then◌else◌, inl, inr, Bool-cases, leb_false→lt,
  lt→leb_false, codes, Text, starts_with, to_lower,
}
use arcpass.Worker.Logger.{
  Value, text, scalar, array, object, Fields, no_fields, field, is_sensitive_key, is_credential_url,
  redacted, redacted_url, filter_sensitive_data, filter_value, matches_credential_url,
}

-- A record that may be logged, at a depth: under a sensitive key stands the mark, no text is a URL
-- with credentials, and the depth of the records in it stays below the maximum. Arrays may hold
-- anything.
abbrev mutual
  pub IsClean : ℕ → ℕ → Fields → Type 0
  IsClean max depth no_fields = Unit
  IsClean max depth (field key value rest) =
      ((is_sensitive_key key ≡ true) → value ≡ redacted)
      × IsCleanValue max depth value
      × IsClean max depth rest

  pub IsCleanValue : ℕ → ℕ → Value → Type 0
  IsCleanValue max depth (text s) = is_credential_url (text s) ≡ false
  IsCleanValue max depth (scalar a) = Unit
  IsCleanValue max depth (array vs) = Unit
  IsCleanValue max depth (object fs) = (depth + 1 < max) × IsClean max (depth + 1) fs

redacted-fits : matches_credential_url (codes "[REDACTED]") ≡ false
unfolding matches_credential_url starts_with to_lower
redacted-fits = refl

redacted_url-fits : matches_credential_url (codes "[REDACTED_URL]") ≡ false
unfolding matches_credential_url starts_with to_lower
redacted_url-fits = refl

kept_text :
    (max depth : ℕ) (s : Text)
    → IsCleanValue max depth (if is_credential_url (text s) then redacted_url else text s)
kept_text max depth s = elim (Bool-cases (is_credential_url (text s))) [
  | inl h ↦ rw h redacted_url-fits
  | inr h ↦ rw h h
]

mutual
  unfolding filter_sensitive_data

  filtered : (max depth : ℕ) (fs : Fields) → IsClean max depth (filter_sensitive_data max depth fs)
  filtered max depth no_fields = tt
  filtered max depth (field key value rest) = elim (Bool-cases (is_sensitive_key key)) [
    | inl h ↦ rw h ((λ e. refl), redacted-fits, filtered max depth rest)
    | inr h ↦ rw h ((λ e. cc), filtered_value max depth value, filtered max depth rest)
  ]

  filtered_value : (max depth : ℕ) (v : Value) → IsCleanValue max depth (filter_value max depth v)
  filtered_value max depth (text s) = kept_text max depth s
  filtered_value max depth (scalar a) = tt
  filtered_value max depth (array vs) = tt
  filtered_value max depth (object fs) = elim (Bool-cases (leb max (depth + 1))) [
    | inl h ↦ rw h redacted-fits
    | inr h ↦ rw h (leb_false→lt max (depth + 1) h, filtered max (depth + 1) fs)
  ]

-- What is clean is left as it is.
mutual
  unfolding filter_sensitive_data

  fixed :
      (max depth : ℕ) (fs : Fields) → IsClean max depth fs → filter_sensitive_data max depth fs ≡ fs
  fixed max depth no_fields h = refl
  fixed max depth (field key value rest) (marked, clean, others) =
      elim (Bool-cases (is_sensitive_key key)) [
        | inl h ↦ rw (h, fixed max depth rest others, marked h) refl
        | inr h ↦ rw (h, fixed max depth rest others, fixed_value max depth value clean) refl
      ]

  fixed_value :
      (max depth : ℕ) (v : Value) → IsCleanValue max depth v → filter_value max depth v ≡ v
  fixed_value max depth (text s) h = rw h refl
  fixed_value max depth (scalar a) h = refl
  fixed_value max depth (array vs) h = refl
  fixed_value max depth (object fs) (shallow, h) =
      rw (lt→leb_false max (depth + 1) shallow, fixed max (depth + 1) fs h) refl

-- In what filterSensitiveData returns, the value under a key that contains one of the sensitive words,
-- in whatever case, is [REDACTED], no text is a URL with credentials, and no record lies at the
-- maximal depth or below it; the same holds in each record that it holds. Values within arrays are
-- not looked at.
pub filter-IsClean :
    (max depth : ℕ) (fs : Fields) → IsClean max depth (filter_sensitive_data max depth fs)
filter-IsClean max depth fs = filtered max depth fs

-- filterSensitiveData leaves exactly those records as they are that hold nothing to redact; so a
-- second run changes nothing.
pub filter-fixed_iff :
    (max depth : ℕ) (fs : Fields)
    → ((filter_sensitive_data max depth fs ≡ fs) ↔ IsClean max depth fs)
      × (filter_sensitive_data max depth (filter_sensitive_data max depth fs)
          ≡ filter_sensitive_data max depth fs)
filter-fixed_iff max depth fs = (
  ((λ same. rw (← same) (filtered max depth fs)), fixed max depth fs),
  fixed max depth (filter_sensitive_data max depth fs) (filtered max depth fs),
)
