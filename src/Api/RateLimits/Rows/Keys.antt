-- ===== src/Api/RateLimits/Rows/Keys.antt =====
-- Rows that a query finds by a condition, and the ids by which they are written.
use arcpass.Prelude.{
  ℕ, ◌≡◌, refl, Bool, true, false, none, some, List, [], ◌∷◌, ◌++◌, ◌==◌, ==_iff, ==_self, arith,
  Bool-cases, inl, inr,
}
use arcpass.Store.Table.{find_first, find_unique, update_row, find_unique-append, find_unique-key}

module _ {A : Type 0} where
  pub find_first-append_new :
      (p : A → Bool) (xs : List A) (y : A)
      → find_first p xs ≡ none
      → p y ≡ true
      → find_first p (xs ++ y ∷ []) ≡ some y
  find_first-append_new p [] y e h = rw h
  find_first-append_new p (x ∷ xs) y e h = ground (arith, find_first-append_new p xs y)

  pub find_first-append_ne :
      (p : A → Bool) (xs : List A) (y : A)
      → p y ≡ false
      → find_first p (xs ++ y ∷ []) ≡ find_first p xs
  find_first-append_ne p [] y h = rw h
  find_first-append_ne p (x ∷ xs) y h = ground (arith, find_first-append_ne p xs y)

  pub find_first-holds :
      (p : A → Bool) (xs : List A) (x : A) → find_first p xs ≡ some x → p x ≡ true
  find_first-holds p [] x e = cc
  find_first-holds p (y ∷ xs) x e = ground (arith, find_first-holds p xs x)

module _ {A : Type 0} (key : A → ℕ) where
  -- No two rows have one key.
  abbrev pub IsKeyed : List A → Type 0
  IsKeyed [] = Unit
  IsKeyed (x ∷ xs) = (find_unique key (key x) xs ≡ none) × IsKeyed xs

  find_first-ne :
      (p : A → Bool) (k : ℕ) (xs : List A) (x : A)
      → find_unique key k xs ≡ none
      → find_first p xs ≡ some x
      → (key x == k) ≡ false
  find_first-ne p k [] x h e = cc
  find_first-ne p k (y ∷ xs) x h e = ground (arith, find_first-ne p k xs x)

  -- The row that a query finds is found by its key.
  pub find_unique-found :
      (p : A → Bool) (xs : List A) (x : A)
      → IsKeyed xs
      → find_first p xs ≡ some x
      → find_unique key (key x) xs ≡ some x
  find_unique-found p [] x keyed e = cc
  find_unique-found p (y ∷ xs) x keyed e = ground (
    arith,
    find_unique-found p xs x,
    find_first-ne p (key y) xs x,
    ==_self (key y),
    ==_iff (key y) (key x),
    ==_iff (key x) (key y),
  )

  pub find_first-update_self :
      (p : A → Bool) (k : ℕ) (f : A → A) (xs : List A) (x : A)
      → ((y : A) → p (f y) ≡ p y)
      → find_unique key k xs ≡ some x
      → find_first p xs ≡ some x
      → find_first p (update_row key k f xs) ≡ some (f x)
  find_first-update_self p k f [] x same u e = cc
  find_first-update_self p k f (y ∷ xs) x same u e = ground (
    arith,
    same y,
    same x,
    find_first-update_self p k f xs x same,
    find_first-holds p (y ∷ xs) x e,
    find_unique-key key k (y ∷ xs) x u,
  )

  pub find_first-update_ne :
      (q : A → Bool) (k : ℕ) (f : A → A) (xs : List A) (x : A)
      → ((y : A) → q (f y) ≡ q y)
      → find_unique key k xs ≡ some x
      → q x ≡ false
      → find_first q (update_row key k f xs) ≡ find_first q xs
  find_first-update_ne q k f [] x same u e = refl
  find_first-update_ne q k f (y ∷ xs) x same u e =
      ground (arith, same y, same x, find_first-update_ne q k f xs x same)

  pub find_unique-update_none :
      (j k : ℕ) (f : A → A) (xs : List A)
      → ((y : A) → key (f y) ≡ key y)
      → find_unique key j xs ≡ none
      → find_unique key j (update_row key k f xs) ≡ none
  find_unique-update_none j k f [] same h = refl
  find_unique-update_none j k f (y ∷ xs) same h =
      ground (arith, same y, find_unique-update_none j k f xs same)

  pub update-IsKeyed :
      (k : ℕ) (f : A → A) (xs : List A)
      → ((y : A) → key (f y) ≡ key y)
      → IsKeyed xs
      → IsKeyed (update_row key k f xs)
  update-IsKeyed k f [] same h = tt
  update-IsKeyed k f (y ∷ xs) same h = elim (Bool-cases (key y == k)) [
    | inl hit ↦ rw hit (rw (same y) h.0, h.1)
    | inr miss ↦
        rw miss (find_unique-update_none (key y) k f xs same h.0, update-IsKeyed k f xs same h.1)
  ]

  pub append-IsKeyed :
      (xs : List A) (y : A)
      → find_unique key (key y) xs ≡ none
      → IsKeyed xs
      → IsKeyed (xs ++ y ∷ [])
  append-IsKeyed [] y h keyed = (refl, tt)
  append-IsKeyed (x ∷ xs) y h keyed = (
    rw (find_unique-append key (key x) xs y keyed.0)
        (ground (arith, ==_iff (key y) (key x), ==_iff (key x) (key y))),
    append-IsKeyed xs y (ground (arith, ==_iff (key y) (key x), ==_iff (key x) (key y))) keyed.1,
  )
