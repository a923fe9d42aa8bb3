-- ===== src/Worker/Poller/Query.antt =====
-- What the poll query finds.
use arcpass.Prelude.{
  ℕ, zero, suc, ◌≤◌, ◌≡◌, ◌≢◌, refl, sym, subst, ◌∙◌, ◌==◌, ◌||◌, ==_iff, Bool, true, false, List,
  [], ◌∷◌, All, All-take, length, take, drop, length-take-le, take-drop, ◌⊎◌, inl, inr, Bool-cases,
  arith,
}
use mathlib.Core.List.{Permᴰ, Memᴰ}
use mathlib.Core.List.Memᴰ
use arcpass.SponsorshipTypes.{
  SponsorshipStatus, pending, relayed, sponsorship_eq, RelayStatus, queued, submitted, confirmed,
  relay_eq,
}
use arcpass.Store.{Database, SponsorshipRequest, RelayTransaction}
use arcpass.Store.Table.{find_first}
use arcpass.Worker.Processor.{is_active_relay_of}
use arcpass.Worker.Poller.{is_due, is_absent, keep_if, poll_query}

-- The later rows of an ordered list were requested no earlier.
abbrev pub IsOrdered : List SponsorshipRequest → Type 0
IsOrdered [] = Unit
IsOrdered (r ∷ rs) = All (λ q. r.requested_at ≤ q.requested_at) rs × IsOrdered rs

-- What is documented of `ORDER BY "requestedAt" ASC`: the same rows, in the order of the column.
pub record IsOrdering (ordered rows : List SponsorshipRequest) : Type 0 where
  pub sorted : IsOrdered ordered
  pub same : Permᴰ rows ordered

All-perm {ℓ} : {A : Type ℓ} (P : A → Type 0) {xs ys : List A} → Permᴰ xs ys → All P xs → All P ys
All-perm P Permᴰ.nil h = h
All-perm P (Permᴰ.cons e p) h = (subst P e h.0, All-perm P p h.1)
All-perm P (Permᴰ.swap e f) h = (subst P f h.1.0, (subst P e h.0, h.1.1))
All-perm P (Permᴰ.trans p q) h = All-perm P q (All-perm P p h)

All-map {ℓ} :
    {A : Type ℓ} (P Q : A → Type 0) (xs : List A) → ((x : A) → P x → Q x) → All P xs → All Q xs
All-map P Q [] f h = tt
All-map P Q (x ∷ xs) f h = (f x h.0, All-map P Q xs f h.1)

All-drop {ℓ} : {A : Type ℓ} (P : A → Type 0) (n : ℕ) (xs : List A) → All P xs → All P (drop n xs)
All-drop P zero xs h = h
All-drop P (suc n) [] h = h
All-drop P (suc n) (x ∷ xs) h = All-drop P n xs h.1

-- What is left out of the beginning of an ordered list comes no earlier than what is in it.
take-before-drop :
    (n : ℕ) (rs : List SponsorshipRequest)
    → IsOrdered rs
    → All (λ r. All (λ q. r.requested_at ≤ q.requested_at) (drop n rs)) (take n rs)
take-before-drop zero rs h = tt
take-before-drop (suc n) [] h = tt
take-before-drop (suc n) (r ∷ rs) h = (All-drop _ n rs h.0, take-before-drop n rs h.1)

Memᴰ-perm {ℓ} : {A : Type ℓ} {a : A} {xs ys : List A} → Permᴰ xs ys → Memᴰ a xs → Memᴰ a ys
Memᴰ-perm Permᴰ.nil m = m
Memᴰ-perm (Permᴰ.cons e p) (Memᴰ.head h) = Memᴰ.head (h ∙ e)
Memᴰ-perm (Permᴰ.cons e p) (Memᴰ.tail m) = Memᴰ.tail (Memᴰ-perm p m)
Memᴰ-perm (Permᴰ.swap e f) (Memᴰ.head h) = Memᴰ.tail (Memᴰ.head (h ∙ e))
Memᴰ-perm (Permᴰ.swap e f) (Memᴰ.tail (Memᴰ.head h)) = Memᴰ.head (h ∙ f)
Memᴰ-perm (Permᴰ.swap e f) (Memᴰ.tail (Memᴰ.tail m)) = Memᴰ.tail (Memᴰ.tail m)
Memᴰ-perm (Permᴰ.trans p q) m = Memᴰ-perm q (Memᴰ-perm p m)

All-lookup {ℓ κ} : {A : Type ℓ} (P : A → Type κ) {a : A} {xs : List A} → All P xs → Memᴰ a xs → P a
All-lookup P h (Memᴰ.head e) = subst P (sym e) h.0
All-lookup P h (Memᴰ.tail m) = All-lookup P h.1 m

All-of_mem {ℓ κ} :
    {A : Type ℓ} (P : A → Type κ) (xs : List A) → ((a : A) → Memᴰ a xs → P a) → All P xs
All-of_mem P [] h = tt
All-of_mem P (x ∷ xs) h = (h x (Memᴰ.head refl), All-of_mem P xs (λ a m. h a (Memᴰ.tail m)))

-- A relay transaction of another request, or one that is queued or failed.
abbrev pub IsIdle : ℕ → RelayTransaction → Type 0
IsIdle id t =
    (t.sponsorship_request_id ≢ id) ⊎ ((t.status ≡ queued) ⊎ (t.status ≡ RelayStatus.failed))

-- The request waits for the processor: it is pending, or it was relayed and each of its relay
-- transactions is queued or failed.
abbrev pub IsDue : Database → SponsorshipRequest → Type 0
IsDue db r = (r.status ≡ pending) ⊎ ((r.status ≡ relayed) × All (IsIdle r.id) db.relays)

idle_status :
    (status : RelayStatus)
    → (relay_eq status submitted || relay_eq status confirmed) ≡ false
    → (status ≡ queued) ⊎ (status ≡ RelayStatus.failed)
idle_status queued h = inl refl
idle_status submitted h = cc
idle_status confirmed h = cc
idle_status RelayStatus.failed h = inr refl

inactive-IsIdle : (id : ℕ) (t : RelayTransaction) → is_active_relay_of id t ≡ false → IsIdle id t
inactive-IsIdle id t h = elim (Bool-cases (t.sponsorship_request_id == id)) [
  | inl same ↦ inr (idle_status t.status (ground (arith, h, same)))
  | inr other ↦ inl (λ e. ground (arith, other, e, ==_iff t.sponsorship_request_id id))
]

IsIdle-inactive : (id : ℕ) (t : RelayTransaction) → IsIdle id t → is_active_relay_of id t ≡ false
IsIdle-inactive id t (inl other) = elim (Bool-cases (t.sponsorship_request_id == id)) [
  | inl same ↦ absurd (other ((==_iff t.sponsorship_request_id id).0 same))
  | inr apart ↦ rw apart refl
]
IsIdle-inactive id t (inr (inl q)) = ground (arith, q)
IsIdle-inactive id t (inr (inr f)) = ground (arith, f)

absent-IsIdle :
    (id : ℕ) (ts : List RelayTransaction)
    → is_absent (find_first (is_active_relay_of id) ts) ≡ true
    → All (IsIdle id) ts
absent-IsIdle id [] h = tt
absent-IsIdle id (t ∷ ts) h = elim (Bool-cases (is_active_relay_of id t)) [
  | inl active ↦ absurd (ground (arith, active, h))
  | inr idle ↦ (inactive-IsIdle id t idle, absent-IsIdle id ts (ground (arith, idle, h)))
]

IsIdle-absent :
    (id : ℕ) (ts : List RelayTransaction)
    → All (IsIdle id) ts
    → is_absent (find_first (is_active_relay_of id) ts) ≡ true
IsIdle-absent id [] h = refl
IsIdle-absent id (t ∷ ts) h = rw (IsIdle-inactive id t h.0) (IsIdle-absent id ts h.1)

status_of-pending :
    (status : SponsorshipStatus) → sponsorship_eq status pending ≡ true → status ≡ pending
status_of-pending status h = ground arith

status_of-relayed :
    (status : SponsorshipStatus) → sponsorship_eq status relayed ≡ true → status ≡ relayed
status_of-relayed status h = ground arith

is_due-IsDue : (db : Database) (r : SponsorshipRequest) → is_due db r ≡ true → IsDue db r
unfolding is_due
is_due-IsDue db r h = elim (Bool-cases (sponsorship_eq r.status pending)) [
  | inl p ↦ inl (status_of-pending r.status p)
  | inr n ↦ inr (
    status_of-relayed r.status (ground (arith, n, h)),
    absent-IsIdle r.id db.relays (ground (arith, n, h)),
  )
]

IsDue-is_due : (db : Database) (r : SponsorshipRequest) → IsDue db r → is_due db r ≡ true
unfolding is_due
IsDue-is_due db r (inl p) = rw p refl
IsDue-is_due db r (inr (q, idle)) = rw (q, IsIdle-absent r.id db.relays idle) refl

kept :
    (p : SponsorshipRequest → Bool) (rs : List SponsorshipRequest)
    → All (λ r. (p r ≡ true) × Memᴰ r rs) (keep_if p rs)
kept p [] = tt
kept p (r ∷ rs) = elim (Bool-cases (p r)) [
  | inl held ↦ rw held ((held, Memᴰ.head refl), All-map _ _ _ later (kept p rs))
  | inr left_out ↦ rw left_out (All-map _ _ _ later (kept p rs))
]
  where
    later : (q : SponsorshipRequest) → (p q ≡ true) × Memᴰ q rs → (p q ≡ true) × Memᴰ q (r ∷ rs)
    later q (h, m) = (h, Memᴰ.tail m)

Memᴰ-keep_if :
    (p : SponsorshipRequest → Bool) (q : SponsorshipRequest) {rs : List SponsorshipRequest}
    → Memᴰ q rs
    → p q ≡ true
    → Memᴰ q (keep_if p rs)
Memᴰ-keep_if p q (Memᴰ.head {x} {xs} e) h = rw (subst (λ y. p y ≡ true) e h) (Memᴰ.head e)
Memᴰ-keep_if p q (Memᴰ.tail {x} {xs} m) h = elim (Bool-cases (p x)) [
  | inl held ↦ rw held (Memᴰ.tail (Memᴰ-keep_if p q m h))
  | inr left_out ↦ rw left_out (Memᴰ-keep_if p q m h)
]

-- Where something is left over, the whole number was taken.
length-take-full :
    (n : ℕ) (q : SponsorshipRequest) (xs : List SponsorshipRequest)
    → Memᴰ q (drop n xs)
    → length (take n xs) ≡ n
length-take-full zero q xs m = refl
length-take-full (suc n) q [] m = elim m [ ]
length-take-full (suc n) q (x ∷ xs) m = omega (arith, length-take-full n q xs m)

-- What a poll leaves for later: the request is in the batch, or the batch is full and was requested
-- no later.
abbrev pub Waits : ℕ → List SponsorshipRequest → SponsorshipRequest → Type 0
Waits batch_size batch q =
    Memᴰ q batch ⊎ ((length batch ≡ batch_size) × All (λ r. r.requested_at ≤ q.requested_at) batch)

module _ (batch_size : ℕ) (ordered : List SponsorshipRequest) (sorted : IsOrdered ordered) where
  found-Waits :
      (q : SponsorshipRequest) → Memᴰ q ordered → Waits batch_size (take batch_size ordered) q
  found-Waits q m =
      elim (Memᴰ.append_cases (take batch_size ordered)
        (subst (λ l. Memᴰ q l) (sym (take-drop batch_size ordered)) m)) [
          | inl taken ↦ inl taken
          | inr later ↦ inr (
            length-take-full batch_size q ordered later,
            All-map _ _ _
                (λ r before. All-lookup (λ p. r.requested_at ≤ p.requested_at) before later)
                (take-before-drop batch_size ordered sorted),
          )
        ]

-- A batch holds at most `BATCH_SIZE` requests of the table, each of which is pending, or is relayed
-- and has only relay transactions that are queued or failed. Every such request of the table that is
-- not in the batch finds the batch full, and was requested no earlier than any in it. The condition is
-- that the database answers with the rows that the query's `WHERE` keeps, in the order of the column.
pub poll_query-batch :
    (order_by : List SponsorshipRequest → List SponsorshipRequest) (batch_size : ℕ) (db : Database)
    → IsOrdering (order_by (keep_if (is_due db) db.requests)) (keep_if (is_due db) db.requests)
    → (length (poll_query order_by batch_size db) ≤ batch_size)
      × All (λ r. IsDue db r × Memᴰ r db.requests) (poll_query order_by batch_size db)
      × All (λ q. ¬ IsDue db q ⊎ Waits batch_size (poll_query order_by batch_size db) q) db.requests
unfolding poll_query
poll_query-batch order_by batch_size db o = (
  length-take-le batch_size _,
  All-take _ batch_size _ (
      All-perm _ o.same (
        All-map _ _ _
          (λ r (h : (is_due db r ≡ true) × Memᴰ r db.requests). (is_due-IsDue db r h.0, h.1))
          (kept (is_due db) db.requests))),
  All-of_mem _ db.requests (λ q stored. by_test q stored (Bool-cases (is_due db q))),
)
  where
    by_test :
        (q : SponsorshipRequest)
        → Memᴰ q db.requests
        → (is_due db q ≡ true) ⊎ (is_due db q ≡ false)
        → ¬ IsDue db q ⊎ Waits batch_size (poll_query order_by batch_size db) q
    by_test q stored (inl due) = inr (
        found-Waits batch_size _ o.sorted q
          (Memᴰ-perm o.same (Memᴰ-keep_if (is_due db) q stored due)))
    by_test q stored (inr not_due) = inl (λ d. ground (arith, not_due, IsDue-is_due db q d))
