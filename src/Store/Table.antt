-- ===== src/Store/Table.antt =====
-- The rows that a query by primary key reads and writes, and what such a write leaves alone.
use arcpass.Prelude.{
  All, Bool-cases, inl, inr, ℕ, suc, ◌+◌, ◌≡◌, refl, ◌≢◌, Bool, Option, none, some, List, [], ◌∷◌,
  ◌++◌, arith, ◌==◌, if◌then◌else◌,
}

-- `findUnique`, `update` and `count`, for rows with the primary key `key`.
module _ {A : Type 0} (key : A → ℕ) where
  abbrev pub find_unique : ℕ → List A → Option A
  find_unique k [] = none
  find_unique k (x ∷ xs) = if key x == k then some x else find_unique k xs

  abbrev pub update_row : ℕ → (A → A) → List A → List A
  update_row k f [] = []
  update_row k f (x ∷ xs) = if key x == k then f x ∷ xs else x ∷ update_row k f xs

abbrev pub count_rows {ℓ} : {A : Type ℓ} → (A → Bool) → List A → ℕ
count_rows p [] = 0
count_rows p (x ∷ xs) = if p x then suc (count_rows p xs) else count_rows p xs

abbrev pub find_first {ℓ} : {A : Type ℓ} → (A → Bool) → List A → Option A
find_first p [] = none
find_first p (x ∷ xs) = if p x then some x else find_first p xs

-- `update` of the row with a unique field: the first one that the test finds.
abbrev pub update_first {ℓ} : {A : Type ℓ} → (A → Bool) → (A → A) → List A → List A
update_first p f [] = []
update_first p f (x ∷ xs) = if p x then f x ∷ xs else x ∷ update_first p f xs

-- `findMany` with a condition.
abbrev pub keep_rows {ℓ} : {A : Type ℓ} → (A → Bool) → List A → List A
keep_rows p [] = []
keep_rows p (x ∷ xs) = if p x then x ∷ keep_rows p xs else keep_rows p xs

module _ {A : Type 0} (key : A → ℕ) where
  pub find_unique-key : (k : ℕ) (xs : List A) (x : A) → find_unique key k xs ≡ some x → key x ≡ k
  find_unique-key k [] x e = cc
  find_unique-key k (y ∷ xs) x e = ground (arith, find_unique-key k xs x)

  pub find_unique-update_self :
      (k : ℕ) (f : A → A) (xs : List A) (x : A)
      → ((y : A) → key (f y) ≡ key y)
      → find_unique key k xs ≡ some x
      → find_unique key k (update_row key k f xs) ≡ some (f x)
  find_unique-update_self k f [] x h e = cc
  find_unique-update_self k f (y ∷ xs) x h e =
      ground (arith, h y, find_unique-update_self k f xs x h)

  pub find_unique-update_ne :
      (j k : ℕ) (f : A → A) (xs : List A)
      → ((y : A) → key (f y) ≡ key y)
      → j ≢ k
      → find_unique key j (update_row key k f xs) ≡ find_unique key j xs
  find_unique-update_ne j k f [] h n = refl
  find_unique-update_ne j k f (y ∷ xs) h n = ground (arith, h y, find_unique-update_ne j k f xs h n)

  -- A new row at the end is found under its own key, and hides no other.
  pub find_unique-append :
      (k : ℕ) (xs : List A) (y : A)
      → find_unique key k xs ≡ none
      → find_unique key k (xs ++ y ∷ []) ≡ (if key y == k then some y else none)
  find_unique-append k [] y h = refl
  find_unique-append k (x ∷ xs) y h = ground (arith, find_unique-append k xs y)

  pub find_unique-append_old :
      (k : ℕ) (xs : List A) (y x : A)
      → find_unique key k xs ≡ some x
      → find_unique key k (xs ++ y ∷ []) ≡ some x
  find_unique-append_old k [] y x h = cc
  find_unique-append_old k (z ∷ xs) y x h = ground (arith, find_unique-append_old k xs y x)

  -- A count over the rows moves by what the written row counts before and after.
  pub count-update :
      (p : A → Bool) (k : ℕ) (f : A → A) (xs : List A) (x : A)
      → find_unique key k xs ≡ some x
      → count_rows p (update_row key k f xs) + (if p x then 1 else 0)
        ≡ count_rows p xs + (if p (f x) then 1 else 0)
  count-update p k f [] x e = cc
  count-update p k f (y ∷ xs) x e = ground (arith, count-update p k f xs x)

module _ {A : Type 0} where
  pub count-append :
      (p : A → Bool) (xs : List A) (y : A)
      → count_rows p (xs ++ y ∷ []) ≡ count_rows p xs + (if p y then 1 else 0)
  count-append p [] y = ground arith
  count-append p (x ∷ xs) y = ground (arith, count-append p xs y)

module _ {A : Type 0} (key : A → ℕ) where
  -- A write keeps a property of all rows if it keeps it at the row that it finds.
  pub All-update :
      (P : A → Type 0) (k : ℕ) (f : A → A) (xs : List A)
      → ((x : A) → find_unique key k xs ≡ some x → P x → P (f x))
      → All P xs
      → All P (update_row key k f xs)
  All-update P k f [] keep h = tt
  All-update P k f (x ∷ xs) keep h = elim (Bool-cases (key x == k)) [
    | inl same ↦ rw same (keep x (rw same) h.0, h.1)
    | inr other ↦ rw other (h.0, All-update P k f xs (λ y e. keep y (rw other e)) h.1)
  ]
