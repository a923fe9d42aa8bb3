-- ===== src/Worker/Tx.antt =====
-- What runs inside `prisma.$transaction` in apps/worker/src/processor.ts: code that reads and
-- writes the database, reads the clock, invokes the relay executor, and may throw. What a throw
-- undoes is the business of `process_request`.
use arcpass.Prelude.{ℕ, suc, List}
use arcpass.SponsorshipTypes.{SponsorshipStatus, RelayStatus}
use arcpass.Store.{Database, RelayTransaction}

-- The `error` of a `TransitionResult`, one constructor for each message of lifecycle.ts.
pub data TransitionError : Type 0 where
  request_not_found relay_not_found : TransitionError
  invalid_transition : SponsorshipStatus → SponsorshipStatus → TransitionError
  invalid_relay_transition : RelayStatus → RelayStatus → TransitionError

-- Which of the two success branches of the processor a message names.
pub data Branch : Type 0 where
  plain already_sponsored : Branch

-- What is thrown: `record_not_found` by `update` of a row that is not there, and `aborted` by the
-- database when it does not commit; the others by the worker's code.
pub data ProcessError : Type 0 where
  transition_failed : SponsorshipStatus → Branch → TransitionError → ProcessError
  relay_update_failed : RelayStatus → Branch → TransitionError → ProcessError
  max_relay_attempts : ℕ → ℕ → ProcessError
  record_not_found aborted : ProcessError

pub data Result (A : Type 0) : Type 0 where
  ok : A → Result A
  err : ProcessError → Result A

-- A call of the relay executor: request, relay transaction and attempt.
pub record RelayCall : Type 0 where
  pub request_id : ℕ
  pub relay_id : ℕ
  pub attempt : ℕ

pub record State : Type 0 where
  pub db : Database
  -- how often the clock has been read
  pub reads : ℕ
  -- the invocations of the relay executor, the last one at the end
  pub calls : List RelayCall

-- What the platform answers: the n-th `new Date()`, and the uuid that the database gives to a new
-- relay transaction beside those that are there.
pub record Host : Type 0 where
  pub clock : ℕ → ℕ
  pub new_relay_id : List RelayTransaction → ℕ

abbrev pub Tx : Type 0 → Type 0
Tx A = State → Result A × State

abbrev pub pure : {A : Type 0} → A → Tx A
pure a s = (ok a, s)

abbrev pub throw : {A : Type 0} → ProcessError → Tx A
throw e s = (err e, s)

abbrev pub gets : {A : Type 0} → (Database → A) → Tx A
gets f s = (ok (f s.db), s)

abbrev pub modify : (Database → Database) → Tx (Unit {0})
modify f s = (ok tt, record s { db = f s.db })

-- `new Date()`
abbrev pub new_date : Host → Tx ℕ
new_date host s = (ok (host.clock s.reads), record s { reads = suc s.reads })

abbrev pub then_run : {A B : Type 0} → Result A × State → (A → Tx B) → Result B × State
then_run (ok a, s) f = f a s
then_run (err e, s) f = (err e, s)

infixl 5 ◌>>=◌ ◌>>◌
abbrev pub ◌>>=◌ : {A B : Type 0} → Tx A → (A → Tx B) → Tx B
◌>>=◌ m f s = then_run (m s) f

abbrev pub ◌>>◌ : {B : Type 0} → Tx (Unit {0}) → Tx B → Tx B
m >> k = m >>= λ _. k

-- What holds at the end of a run, by how it ended.
abbrev pub Outcome :
    {A : Type 0}
    → (ProcessError → State → Type 0)
    → (A → State → Type 0)
    → Result A × State
    → Type 0
Outcome E Q (ok a, s) = Q a s
Outcome E Q (err e, s) = E e s

-- From a state with `P` the code ends with `Q` at its result, or throws with `E` at its error.
abbrev pub Triple :
    {A : Type 0}
    → (ProcessError → State → Type 0)
    → (State → Type 0)
    → Tx A
    → (A → State → Type 0)
    → Type 0
Triple E P m Q = (s : State) → P s → Outcome E Q (m s)

module _ (E : ProcessError → State → Type 0) where
  then_run-Outcome :
      {A B : Type 0} (r : Result A × State) (f : A → Tx B) (R : A → State → Type 0)
      (Q : B → State → Type 0)
      → Outcome E R r
      → ((a : A) → Triple E (R a) (f a) Q)
      → Outcome E Q (then_run r f)
  then_run-Outcome (ok a, s) f R Q h k = k a s h
  then_run-Outcome (err e, s) f R Q h k = h

  pub bind-Triple :
      {A B : Type 0} (P : State → Type 0) (m : Tx A) (f : A → Tx B) (R : A → State → Type 0)
      (Q : B → State → Type 0)
      → Triple E P m R
      → ((a : A) → Triple E (R a) (f a) Q)
      → Triple E P (m >>= f) Q
  bind-Triple P m f R Q h k s p = then_run-Outcome (m s) f R Q (h s p) k

  -- The same rule from one state.
  pub bind-Outcome :
      {A B : Type 0} (m : Tx A) (f : A → Tx B) (R : A → State → Type 0) (Q : B → State → Type 0)
      (s : State)
      → Outcome E R (m s)
      → ((a : A) (s' : State) → R a s' → Outcome E Q (f a s'))
      → Outcome E Q ((m >>= f) s)
  bind-Outcome m f R Q s h k = then_run-Outcome (m s) f R Q h k

  pub Outcome-map :
      {A : Type 0} (r : Result A × State) (R Q : A → State → Type 0)
      → Outcome E R r
      → ((a : A) (s : State) → R a s → Q a s)
      → Outcome E Q r
  Outcome-map (ok a, s) R Q h k = k a s h
  Outcome-map (err e, s) R Q h k = h
