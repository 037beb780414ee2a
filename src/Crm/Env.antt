-- ===== src/Crm/Env.antt =====
-- What the contacts service is run against: the clock and the database. The n-th call is answered by
-- the n-th entry of the environment.
use fmxevolution_go.Base.{ℕ, suc, String, Option, none, some, Time}
use fmxevolution_go.Base.Effect.{M, ok, err}
use fmxevolution_go.Domain.{GoError, plain_error}
use fmxevolution_go.Crm.Repo.{Db}

pub record Env : Type 0 where
  pub clock : ℕ → Time
  pub db_fault : ℕ → Option String
  pub new_id : ℕ → String
  -- `lower` of the database
  pub lower : String → String
  -- what the database says where an index refuses a row
  pub violation : String

pub record World : Type 0 where
  pub db : Db
  pub tick : ℕ

abbrev pub Req : Type 0 → Type 0
Req A = M World GoError A

-- A statement that reads, with the error of what it does not find.
unfoldable pub query : {A : Type 0} → Env → GoError → (Db → Option A) → Req A
query env missing f w = elim (env.db_fault w.tick) [
  | some e ↦ (err (plain_error e), record w { tick = suc w.tick })
  | none ↦ elim (f w.db) [
    | some a ↦ (ok a, record w { tick = suc w.tick })
    | none ↦ (err missing, record w { tick = suc w.tick })
  ]
]

-- A statement that writes and hands out a record, which depends on the number of the call.
unfoldable pub write : {A : Type 0} → Env → GoError → (ℕ → A) → (A → Db → Option Db) → Req A
write env refused make f w = elim (env.db_fault w.tick) [
  | some e ↦ (err (plain_error e), record w { tick = suc w.tick })
  | none ↦ elim (f (make w.tick) w.db) [
    | some db ↦ (ok (make w.tick), record w { db = db; tick = suc w.tick })
    | none ↦ (err refused, record w { tick = suc w.tick })
  ]
]
