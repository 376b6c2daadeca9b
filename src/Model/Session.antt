-- ===== src/Model/Session.antt =====
-- One request or worker task: a SQLAlchemy session over the database, with Python's exceptions.
-- Writes go to `db`; `commit` makes them last; what a raised error leaves uncommitted is lost when
-- `get_db_session` closes the session (app/db/session.py). Mail and queued tasks are not undone.
use aidigiplanner_backend.Base.{
  ℕ, String, Bool, Option, none, some, List, [], ◌∷◌, if◌then◌else◌, is_none, ◌≡◌, refl, ◌⊎◌, inl,
  inr,
}
use aidigiplanner_backend.Model.Tables.{Database, AuditLog, Email, Task}

-- `AppError` of app/core/exceptions.py: the HTTP status and the machine-readable code.
pub record AppError : Type 0 where
  pub status_code : ℕ
  pub code : String

abbrev pub bad_request : AppError
bad_request = record { status_code = 400; code = "bad_request" }

abbrev pub not_found : AppError
not_found = record { status_code = 404; code = "not_found" }

abbrev pub unauthorized : AppError
unauthorized = record { status_code = 401; code = "unauthorized" }

abbrev pub forbidden : AppError
forbidden = record { status_code = 403; code = "forbidden" }

abbrev pub conflict : AppError
conflict = record { status_code = 409; code = "conflict" }

abbrev pub rate_limited : AppError
rate_limited = record { status_code = 429; code = "rate_limited" }

-- `XError(message, code=code)`
abbrev pub with_code : AppError → String → AppError
with_code e c = record e { code = c }

-- `crash` is an exception that is no `AppError`, such as an `AssertionError`.
pub data Error : Type 0 where
  app : AppError → Error
  crash : Error

pub data Result (A : Type 0) : Type 0 where
  ok : A → Result A
  err : Error → Result A

pub record Session : Type 0 where
  pub db : Database
  pub committed : Database
  pub outbox : List Email
  pub queue : List Task

abbrev pub Action : Type 0 → Type 0
Action A = Session → Result A × Session

infixl 5 ◌>>=◌ ◌>>◌
abbrev pub ◌>>=◌ : {A B : Type 0} → Action A → (A → Action B) → Action B
◌>>=◌ m f s = let (r, t) = m s in elim r [ ok a ↦ f a t | err e ↦ (err e, t) ]

abbrev pub ◌>>◌ : {A B : Type 0} → Action A → Action B → Action B
m >> k = m >>= λ _. k

module _ {A : Type 0} where
  abbrev pub pure : A → Action A
  pure a s = (ok a, s)

  abbrev pub raise : AppError → Action A
  raise e s = (err (app e), s)

  -- A query.
  abbrev pub query : (Database → A) → Action A
  query f s = (ok (f s.db), s)

  -- The row, or the error that its absence raises.
  abbrev pub or_raise : Option A → AppError → Action A
  or_raise none e = raise e
  or_raise (some a) e = pure a

-- The value, or an exception that is no `AppError`.
abbrev pub or_crash : {A : Type 0} → Option A → Action A
or_crash none s = (err crash, s)
or_crash (some a) s = (ok a, s)

abbrev pub raise_if : Bool → AppError → Action (Unit {0})
raise_if c e = if c then raise e else pure tt

-- Writes to the session's rows.
abbrev pub modify : (Database → Database) → Action (Unit {0})
modify f s = (ok tt, record s { db = f s.db })

abbrev pub commit : Action (Unit {0})
commit s = (ok tt, record s { committed = s.db })

abbrev pub rollback : Action (Unit {0})
rollback s = (ok tt, record s { db = s.committed })

abbrev pub send : Email → Action (Unit {0})
send m s = (ok tt, record s { outbox = m ∷ s.outbox })

abbrev pub enqueue : Task → Action (Unit {0})
enqueue t s = (ok tt, record s { queue = t ∷ s.queue })

-- `AuditService.log` of app/modules/audit/service.py.
abbrev pub log : AuditLog → Action (Unit {0})
log entry = modify (λ d. record d { audit_logs = entry ∷ d.audit_logs })

-- `session.get(T, id)` and its like followed by `if row is None or row.deleted_at is not None`.
module _ {A : Type 0} (deleted_at : A → Option ℕ) where
  abbrev pub live : Option A → Option A
  live none = none
  live (some a) = if is_none (deleted_at a) then some a else none

-- The session that a request starts with.
abbrev pub open_session : Database → Session
open_session d = record { db = d; committed = d; outbox = []; queue = [] }

-- A step that succeeds hands its value and its session on; one that fails ends the action.
module _ {A B : Type 0} (m : Action A) (f : A → Action B) (s : Session) where
  pub >>=-ok : (a : A) (t : Session) → m s ≡ (ok a, t) → (m >>= f) s ≡ f a t
  >>=-ok a t e = rw (e, ◌>>=◌) (rw e)

  pub >>=-err : (e : Error) (t : Session) → m s ≡ (err e, t) → (m >>= f) s ≡ (err e, t)
  >>=-err e t failed = rw (failed, ◌>>=◌) (rw failed)

-- How an action ends.
pub Result-cases :
    {A : Type 0} (x : Result A × Session)
    → ((a : A) × (t : Session) × (x ≡ (ok a, t))) ⊎ ((e : Error) × (t : Session) × (x ≡ (err e, t)))
Result-cases (ok a, t) = inl (a, t, refl)
Result-cases (err e, t) = inr (e, t, refl)
