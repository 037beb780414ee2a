-- ===== src/SendStatus.antt =====
-- pkg/sendstatus/registry.go: the jobs that send a message, and the receipts that come in for them.
--
-- The registry is passed from call to call; the mutex makes each call one step. A listener is a
-- value of any type `L`: what it does is not part of the registry. `MarkReceipt` returns the calls
-- that it starts, one goroutine for each.
pub mod Merge
pub mod Receipts
pub mod Examples
use fmxevolution_go.Base.{
  ℕ, String, Bool, true, false, ◌&&◌, ◌||◌, not, Option, none, some, List, [], ◌∷◌, ◌++◌, map,
  str_eq, ltb, ◌==◌, if◌then◌else◌, Time, is_zero_time, after, trim_space, to_lower, concat, GoMap,
  put, empty_map, or_else, is_some,
}

pub record JobStatus : Type 0 where
  pub job_id : String
  pub instance_id : String
  pub instance_name : String
  pub reference : String
  pub number : String
  pub text : String
  pub status : String
  pub error : String
  pub message_id : String
  pub server_id : ℕ
  pub queued_at : Time
  pub started_at : Option Time
  pub finished_at : Option Time
  pub delivered_at : Option Time
  pub read_at : Option Time
  pub delivery_confirmed : Bool

pub record ReceiptUpdate : Type 0 where
  pub instance_id : String
  pub message_id : String
  pub state : String
  pub at : Time

-- The type `record` of the source.
pub record Entry : Type 0 where
  pub tenant_id : String
  pub status : JobStatus

pub record Registry (L : Type 0) : Type 0 where
  pub jobs : GoMap Entry
  pub message_index : GoMap String
  pub listeners : List L

-- `global`
unfoldable pub new_registry : {L : Type 0} → Registry L
new_registry = record { jobs = empty_map; message_index = empty_map; listeners = [] }

unfoldable pub delivery_status : JobStatus → String
delivery_status j =
    if is_some j.read_at then "read" else if is_some j.delivered_at then "delivered" else j.status

unfoldable pub was_sent : JobStatus → Bool
unfolding delivery_status
was_sent j = let s = delivery_status j in str_eq s "sent" || str_eq s "delivered" || str_eq s "read"

unfoldable pub tenant_job_key : String → String → String
unfolding concat
tenant_job_key tenant job = concat (tenant ∷ "|" ∷ job ∷ [])

unfoldable pub instance_message_key : String → String → String
unfolding concat
instance_message_key inst msg = concat (inst ∷ "|" ∷ msg ∷ [])

-- The value that comes in, or the one that is there where it is the zero value.
unfoldable pub or_text : String → String → String
or_text new old = if str_eq new "" then old else new

unfoldable pub or_number : ℕ → ℕ → ℕ
or_number new old = if new == 0 then old else new

unfoldable pub or_pointer : {A : Type 0} → Option A → Option A → Option A
or_pointer none old = old
or_pointer (some a) old = some a

unfoldable pub merge_status : JobStatus → JobStatus → JobStatus
merge_status existing incoming = record incoming {
  reference = or_text incoming.reference existing.reference;
  number = or_text incoming.number existing.number;
  text = or_text incoming.text existing.text;
  message_id = or_text incoming.message_id existing.message_id;
  server_id = or_number incoming.server_id existing.server_id;
  queued_at = or_number incoming.queued_at existing.queued_at;
  started_at = or_pointer incoming.started_at existing.started_at;
  finished_at = or_pointer incoming.finished_at existing.finished_at;
  delivered_at = or_pointer incoming.delivered_at existing.delivered_at;
  read_at = or_pointer incoming.read_at existing.read_at;
  delivery_confirmed = incoming.delivery_confirmed || existing.delivery_confirmed;
}

module _ {L : Type 0} where
  -- The status that a call of `Store` leaves under its key.
  unfoldable pub stored_status : String → JobStatus → Registry L → JobStatus
  stored_status tenant status g = elim (g.jobs (tenant_job_key tenant status.job_id)) [
    | none ↦ status
    | some old ↦ merge_status old.status status
  ]

  unfoldable pub store : String → JobStatus → Registry L → Registry L
  unfolding stored_status
  store tenant status g =
      let key = tenant_job_key tenant status.job_id in
      let kept = stored_status tenant status g in
      record g {
        jobs = put key (record { tenant_id = tenant; status = kept }) g.jobs;
        message_index =
            if not (str_eq kept.instance_id "") && not (str_eq kept.message_id "")
            then put (instance_message_key kept.instance_id kept.message_id) key g.message_index
            else g.message_index;
      }

  unfoldable pub load : String → String → Registry L → Option JobStatus
  load tenant job g = elim (g.jobs (tenant_job_key tenant job)) [
    | none ↦ none
    | some e ↦ some e.status
  ]

  -- A nil listener is `none`.
  unfoldable pub register_receipt_listener : Option L → Registry L → Registry L
  register_receipt_listener none g = g
  register_receipt_listener (some l) g = record g { listeners = g.listeners ++ l ∷ [] }

-- The later of a time that is there and one that comes in.
unfoldable pub latest : Option Time → Time → Option Time
latest none at = some at
latest (some old) at = if after at old then some at else some old

-- The `switch` of `MarkReceipt`, on the state without white space and in lower case.
unfoldable pub apply_state : String → Time → JobStatus → Option JobStatus
unfolding latest
apply_state state at j =
    if str_eq state "delivered"
    then some (record j { delivered_at = latest j.delivered_at at; delivery_confirmed = true })
    else if str_eq state "read"
    then some (record j {
      delivered_at = latest j.delivered_at at;
      read_at = latest j.read_at at;
      delivery_confirmed = true;
    })
    else none

-- What `MarkReceipt` returns, the registry behind it and the calls that it starts.
pub record Marked (L : Type 0) : Type 0 where
  pub found : Bool
  pub registry : Registry L
  pub calls : List (L × ReceiptUpdate)

module _ {L : Type 0} where
  abbrev pub ignored : Registry L → Marked L
  ignored g = record { found = false; registry = g; calls = [] }

  mark_entry : String → String → String → Time → Registry L → String → Entry → Marked L
  mark_entry inst msg state at g key e = elim (apply_state state at e.status) [
    | none ↦ ignored g
    | some updated ↦ record {
      found = true;
      registry = record g { jobs = put key (record e { status = updated }) g.jobs };
      calls =
          map (λ l. (l, record { instance_id = inst; message_id = msg; state = state; at = at }))
            g.listeners;
    }
  ]

  mark_job : String → String → String → Time → Registry L → String → Marked L
  unfolding mark_entry
  mark_job inst msg state at g key = elim (g.jobs key) [
    | none ↦ ignored g
    | some e ↦ mark_entry inst msg state at g key e
  ]

  unfoldable pub mark_receipt : String → String → String → Time → Registry L → Marked L
  unfolding mark_job
  mark_receipt inst msg state at g = elim (g.message_index (instance_message_key inst msg)) [
    | none ↦ ignored g
    | some key ↦ mark_job inst msg (to_lower (trim_space state)) at g key
  ]
