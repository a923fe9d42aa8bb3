-- ===== src/Worker/Logger/Entries.antt =====
-- What a log entry holds.
use arcpass.Prelude.{
  ℕ, ◌≤◌, ◌≡◌, refl, ◌⊎◌, inl, inr, Bool, true, false, Option, none, some, Text, codes, text_eq,
  text_eq→eq, length, take, ltb, length-take-le, if◌then◌else◌, Bool-cases, arith,
}
use arcpass.Worker.Logger.{
  Value, text, Fields, no_fields, field, Level, level_name, is_sensitive_key, redacted, assign,
  spread, filtered_data, max_filter_depth, max_message_length, truncated_message, entry,
}
use arcpass.Worker.Logger.Redaction.{IsClean, IsCleanValue, filter-IsClean}

-- What an object holds under a key.
abbrev pub value_of : Text → Fields → Option Value
value_of key no_fields = none
value_of key (field k v rest) =
    let below = value_of key rest in if text_eq k key then some v else below

-- A value that may be logged under its key.
abbrev pub IsRedacted : Text → Value → Type 0
IsRedacted key v =
    ((is_sensitive_key key ≡ true) → v ≡ redacted) × IsCleanValue max_filter_depth 0 v

-- The fields that `log` puts into each entry.
abbrev pub own_fields : Text → Text → Level → Text → Fields
own_fields component timestamp level message = field (codes "timestamp") (text timestamp) (
    field (codes "level") (text (level_name level)) (
      field (codes "component") (text component)
        (field (codes "message") (text (truncated_message message)) no_fields)))

value_of-found :
    (b : Bool) (w v : Value) (o : Option Value)
    → (if b then some w else o) ≡ some v
    → ((b ≡ true) × (w ≡ v)) ⊎ ((b ≡ false) × (o ≡ some v))
value_of-found true w v o h = inl (refl, cc)
value_of-found false w v o h = inr (refl, h)

value_of-assign :
    (key k : Text) (v w : Value) (fs : Fields)
    → value_of key (assign k w fs) ≡ some v
    → (value_of key fs ≡ some v) ⊎ ((k ≡ key) × (w ≡ v))
value_of-assign key k v w no_fields h = elim (value_of-found (text_eq k key) w v none h) [
  | inl hit ↦ inr (text_eq→eq k key hit.0, hit.1)
  | inr miss ↦ inl miss.1
]
value_of-assign key k v w (field k' v' rest) h =
    by_key (text_eq k' k) refl (value_of-assign key k v w rest) h
  where
    by_key :
        (b : Bool)
        → text_eq k' k ≡ b
        → (value_of key (assign k w rest) ≡ some v
            → (value_of key rest ≡ some v) ⊎ ((k ≡ key) × (w ≡ v)))
        → value_of key (if b then field k' w rest else field k' v' (assign k w rest)) ≡ some v
        → (value_of key (field k' v' rest) ≡ some v) ⊎ ((k ≡ key) × (w ≡ v))
    by_key true same ih h = elim (value_of-found (text_eq k' key) w v (value_of key rest) h) [
      | inl hit ↦ inr (let a = text_eq→eq k' k same in let b = text_eq→eq k' key hit.0 in cc, hit.1)
      | inr miss ↦ inl (rw miss.0 miss.1)
    ]
    by_key false other ih h =
        elim (value_of-found (text_eq k' key) v' v (value_of key (assign k w rest)) h) [
          | inl hit ↦ inl (rw hit.0 (let a = hit.1 in cc))
          | inr miss ↦ elim (ih miss.1) [ inl own ↦ inl (rw miss.0 own) | inr same ↦ inr same ]
        ]

value_of-spread :
    (key : Text) (v : Value) (target source : Fields)
    → IsClean max_filter_depth 0 source
    → value_of key (spread target source) ≡ some v
    → (value_of key target ≡ some v) ⊎ IsRedacted key v
value_of-spread key v target no_fields clean h = inl h
value_of-spread key v target (field k w rest) clean h =
    elim (value_of-spread key v (assign k w target) rest clean.2 h) [
      | inr kept ↦ inr kept
      | inl found ↦ elim (value_of-assign key k v w target found) [
        | inl own ↦ inl own
        | inr same ↦ inr (rw (← same.0, ← same.1) (clean.0, clean.1))
      ]
    ]

filtered_data-IsClean :
    (data_fields : Option Fields) → IsClean max_filter_depth 0 (filtered_data data_fields)
filtered_data-IsClean none = tt
filtered_data-IsClean (some fs) = filter-IsClean max_filter_depth 0 fs

length-within : (n : ℕ) (s : Text) → length (if ltb n (length s) then take n s else s) ≤ n
length-within n s = elim (Bool-cases (ltb n (length s))) [
  | inl long ↦ rw long (length-take-le n s)
  | inr short ↦ rw short (ground arith)
]

-- What an entry holds under a key is what `log` itself puts there, or it is redacted: the value is
-- [REDACTED] where the key contains one of the sensitive words, a text is no URL with credentials,
-- and records in it are clean in the same way down to depth ten. The message that `log` puts there
-- has at most 10000 code units.
pub entry-IsRedacted :
    (component timestamp : Text) (level : Level) (message : Text) (data_fields : Option Fields)
    (key : Text) (v : Value)
    → value_of key (entry component timestamp level message data_fields) ≡ some v
    → ((value_of key (own_fields component timestamp level message) ≡ some v) ⊎ IsRedacted key v)
      × (length (truncated_message message) ≤ max_message_length)
unfolding entry
entry-IsRedacted component timestamp level message data_fields key v h = (
  value_of-spread key v (own_fields component timestamp level message) (filtered_data data_fields)
      (filtered_data-IsClean data_fields) h,
  length-within max_message_length message,
)
