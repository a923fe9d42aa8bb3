-- ===== src/Api/Actions.antt =====
-- The code of the API's services: it reads and writes the tables, and may throw. What was written
-- before a throw stays written, since the services use no transaction.
use arcpass.Prelude.{Option, none, some, List}
use arcpass.Store.{Database, RateLimit}
use arcpass.Api.Errors.{ApiError, Result, ok, err}

pub record ApiStore : Type 0 where
  pub db : Database
  pub limits : List RateLimit

abbrev pub Action : Type 0 → Type 0
Action A = ApiStore → Result A × ApiStore

abbrev pub pure : {A : Type 0} → A → Action A
pure a s = (ok a, s)

abbrev pub throw : {A : Type 0} → ApiError → Action A
throw e s = (err e, s)

abbrev pub gets : {A : Type 0} → (ApiStore → A) → Action A
gets f s = (ok (f s), s)

abbrev pub modify_db : (Database → Database) → Action (Unit {0})
modify_db f s = (ok tt, record s { db = f s.db })

abbrev pub modify_limits : (List RateLimit → List RateLimit) → Action (Unit {0})
modify_limits f s = (ok tt, record s { limits = f s.limits })

abbrev pub then_run : {A B : Type 0} → Result A × ApiStore → (A → Action B) → Result B × ApiStore
then_run (ok a, s) f = f a s
then_run (err e, s) f = (err e, s)

infixl 5 ◌>>=◌ ◌>>◌
abbrev pub ◌>>=◌ : {A B : Type 0} → Action A → (A → Action B) → Action B
◌>>=◌ m f s = then_run (m s) f

abbrev pub ◌>>◌ : {B : Type 0} → Action (Unit {0}) → Action B → Action B
m >> k = m >>= λ _. k

-- A value that must be there.
abbrev pub or_throw : {A : Type 0} → Option A → ApiError → Action A
or_throw none e = throw e
or_throw (some a) e = pure a
