-- ===== src/Broadcast/Env.antt =====
-- What the broadcast service is run against: the clock, the context, the database, and the parts
-- of the program behind its interfaces (instanceFinder, contactLister, textSender).
--
-- The n-th call on any of them is answered by the n-th entry of the environment, so that a theorem
-- about every environment is one about every outcome of every call. Other requests do not change
-- the tables between the calls of one run.
use fmxevolution_go.Base.{
  ℕ, suc, String, Bool, Option, none, some, List, [], ◌∷◌, ◌++◌, Time, GoMap,
}
use fmxevolution_go.Base.Effect.{M, Out, ok, err}
use fmxevolution_go.Domain.{GoError, plain_error}
use fmxevolution_go.Broadcast.Model.{BroadcastRecipientAnalytics, BroadcastJob}
use fmxevolution_go.Broadcast.Repo.{Db}

-- repository.Contact, the fields that are read
pub record Contact : Type 0 where
  pub id : String
  pub instance_id : String
  pub phone : String

-- repository.Instance, the fields that are read
pub record Instance : Type 0 where
  pub id : String
  pub tenant_id : String

-- instance.SendTextResult
pub record SendTextResult : Type 0 where
  pub message_id : String
  pub server_id : ℕ
  pub chat : String
  pub timestamp : Time

-- The arguments of a call of `SendText`.
pub record SendCall : Type 0 where
  pub tenant : String
  pub reference : String
  pub number : String
  pub text : String

pub record Env : Type 0 where
  pub clock : ℕ → Time
  -- `ctx.Err()`, and what a wait for the context or a timer ends with
  pub cancelled : ℕ → Option String
  pub db_fault : ℕ → Option String
  pub new_id : ℕ → ℕ → String
  pub phone_le : String → String → Bool
  -- `ILIKE` of the database
  pub ilike : String → String → Bool
  -- what `Scan` of gorm makes of a selected row of analytics, whose fields carry the tag `gorm:"-"`
  pub scan_analytics : BroadcastRecipientAnalytics → BroadcastRecipientAnalytics
  -- what the other workers have made of `nextInstanceAt` since the call before
  pub other_slots : ℕ → GoMap Time → GoMap Time
  -- whether repo, instances, contacts and sender are not nil
  pub has_repo : Bool
  pub has_instances : Bool
  pub has_contacts : Bool
  pub has_sender : Bool
  pub get_by_id : ℕ → String → String → Out GoError (Option Instance)
  pub get_by_global_id : ℕ → String → Out GoError (Option Instance)
  pub list_contacts : ℕ → String → Out GoError (List Contact)
  pub send_text : ℕ → SendCall → Out GoError (Option SendTextResult)

pub record World : Type 0 where
  pub db : Db
  pub tick : ℕ
  -- the calls of `SendText` so far
  pub outbox : List SendCall
  -- `Service.queue`, the oldest job first
  pub queue : List BroadcastJob
  -- `Service.nextInstanceAt`
  pub next_instance_at : GoMap Time

-- One call on the environment.
unfoldable pub ask : {E A : Type 0} → (ℕ → A) → M World E A
ask f w = (ok (f w.tick), record w { tick = suc w.tick })

-- The answer of a part that can fail.
unfoldable pub request : {A : Type 0} → (ℕ → Out GoError A) → M World GoError A
request f w = (f w.tick, record w { tick = suc w.tick })

-- `ctx.Err()`
unfoldable pub check_context : Env → M World GoError (Unit {0})
check_context env w = elim (env.cancelled w.tick) [
  | none ↦ (ok tt, record w { tick = suc w.tick })
  | some e ↦ (err (plain_error e), record w { tick = suc w.tick })
]

-- A statement that changes the tables, where the database accepts it.
unfoldable pub db_call : {A : Type 0} → Env → (ℕ → Db → Out GoError A × Db) → M World GoError A
db_call env f w = elim (env.db_fault w.tick) [
  | none ↦ ((f w.tick w.db).0, record w { tick = suc w.tick; db = (f w.tick w.db).1 })
  | some e ↦ (err (plain_error e), record w { tick = suc w.tick })
]

unfoldable pub send_text_call : Env → SendCall → M World GoError (Option SendTextResult)
send_text_call env call w =
    (env.send_text w.tick call, record w { tick = suc w.tick; outbox = w.outbox ++ call ∷ [] })
