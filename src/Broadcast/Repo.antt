-- ===== src/Broadcast/Repo.antt =====
-- The broadcast tables and the statements that internal/repository/gorm.go runs on them. A function
-- here is the effect of a statement that the database carries out; the calls that the database
-- refuses are in Broadcast.Env.
pub mod Receipts
pub mod Summary
use fmxevolution_go.Base.{
  ℕ, suc, ◌+◌, String, Bool, true, false, not, ◌&&◌, ◌||◌, Option, none, some, List, [], ◌∷◌, ◌++◌,
  map, str_eq, leb, ltb, ◌==◌, if◌then◌else◌, is_some, or_else, ℤ, Time, trim_space, to_lower,
  count, filter, any, length, order_by,
}
use fmxevolution_go.Broadcast.Model.{
  BroadcastJob, BroadcastRecipientProgress, BroadcastRecipientAnalytics,
}

pub record Db : Type 0 where
  pub jobs : List BroadcastJob
  pub progress : List BroadcastRecipientProgress

-- The unique index idx_broadcast_recipient_phone.
abbrev pub same_key : BroadcastRecipientProgress → BroadcastRecipientProgress → Bool
same_key r s = str_eq r.broadcast_id s.broadcast_id && str_eq r.phone s.phone

-- Whether a row with the key of `r` is there.
abbrev pub has_key : BroadcastRecipientProgress → List BroadcastRecipientProgress → Bool
has_key r = any (same_key r)

-- `DO NOTHING` on a conflict.
insert_new :
    BroadcastRecipientProgress → List BroadcastRecipientProgress → List BroadcastRecipientProgress
insert_new r rows = if has_key r rows then rows else rows ++ r ∷ []

-- The records go in one behind the other, with the identifiers and the time that gorm gives them.
unfoldable pub seed_recipient_progress :
    (ℕ → String)
    → Time
    → ℕ
    → List BroadcastRecipientProgress
    → List BroadcastRecipientProgress
    → List BroadcastRecipientProgress
unfolding insert_new
seed_recipient_progress new_id now n [] rows = rows
seed_recipient_progress new_id now n (r ∷ rs) rows =
    seed_recipient_progress new_id now (suc n) rs
      (insert_new (record r { id = new_id n; created_at = now }) rows)

-- The columns of `DoUpdates`; the row keeps its identifier, its key and its creation time.
unfoldable pub overwrite :
    BroadcastRecipientProgress → BroadcastRecipientProgress → BroadcastRecipientProgress
overwrite new old = record new {
  id = old.id;
  broadcast_id = old.broadcast_id;
  phone = old.phone;
  created_at = old.created_at;
}

-- `UPDATE … SET … WHERE …`
unfoldable pub update_rows :
    (BroadcastRecipientProgress → Bool)
    → (BroadcastRecipientProgress → BroadcastRecipientProgress)
    → List BroadcastRecipientProgress
    → List BroadcastRecipientProgress
update_rows test change [] = []
update_rows test change (r ∷ rs) =
    let rest = update_rows test change rs in if test r then change r ∷ rest else r ∷ rest

-- An upsert by the unique index.
unfoldable pub save_recipient_progress :
    BroadcastRecipientProgress → List BroadcastRecipientProgress → List BroadcastRecipientProgress
save_recipient_progress new rows =
    if has_key new rows then update_rows (same_key new) (overwrite new) rows else rows ++ new ∷ []

-- `WHERE tenant_id = ? AND broadcast_id = ?`
abbrev pub of_broadcast : String → String → BroadcastRecipientProgress → Bool
of_broadcast tenant job r = str_eq r.tenant_id tenant && str_eq r.broadcast_id job

-- `ORDER BY created_at ASC, phone ASC`; the order of texts is the database's collation.
abbrev pub row_before :
    (String → String → Bool) → BroadcastRecipientProgress → BroadcastRecipientProgress → Bool
row_before phone_le r s =
    ltb r.created_at s.created_at || (r.created_at == s.created_at && phone_le r.phone s.phone)

unfoldable pub list_recipient_progress :
    (String → String → Bool)
    → String
    → String
    → List BroadcastRecipientProgress
    → List BroadcastRecipientProgress
unfolding order_by
list_recipient_progress phone_le tenant job rows =
    order_by (row_before phone_le) (filter (of_broadcast tenant job) rows)

-- The columns that a receipt sets, for the state that it reports.
unfoldable pub apply_receipt : Bool → Time → BroadcastRecipientProgress → BroadcastRecipientProgress
apply_receipt is_read at r =
    if is_read
    then record r {
      delivery_status = "read";
      delivered_at = some (or_else r.delivered_at at);
      read_at = elim r.read_at [
        | none ↦ some at
        | some old ↦ some (if ltb old at then at else old)
      ];
      status_source = "receipt_read";
      last_status_at = some at;
    }
    else record r {
      delivery_status = "delivered";
      delivered_at = some (or_else r.delivered_at at);
      status_source = "receipt_delivered";
      last_status_at = some at;
    }

-- The rows that a receipt is for: never a failed one, and for `delivered` none that has been read.
unfoldable pub receipt_matches : Bool → String → String → String → BroadcastRecipientProgress → Bool
receipt_matches is_read tenant inst msg r =
    str_eq r.tenant_id tenant
    && str_eq r.instance_id inst
    && str_eq r.message_id msg
    && not (str_eq r.delivery_status "failed")
    && (is_read || not (str_eq r.delivery_status "read"))

receipt_update :
    Bool
    → String
    → String
    → String
    → Time
    → List BroadcastRecipientProgress
    → List BroadcastRecipientProgress × Bool
unfolding update_rows receipt_matches apply_receipt
receipt_update is_read tenant inst msg at rows =
    let test = receipt_matches is_read tenant inst msg in
    (update_rows test (apply_receipt is_read at) rows, ltb 0 (count test rows))

-- Whether a row was updated comes with the rows.
unfoldable pub mark_recipient_receipt :
    String
    → String
    → String
    → String
    → Time
    → List BroadcastRecipientProgress
    → List BroadcastRecipientProgress × Bool
unfolding receipt_update
mark_recipient_receipt tenant inst msg state at rows =
    let tenant' = trim_space tenant in
    let inst' = trim_space inst in
    let msg' = trim_space msg in
    let state' = to_lower (trim_space state) in
    if str_eq tenant' "" || str_eq inst' "" || str_eq msg' ""
    then (rows, false)
    else if str_eq state' "delivered"
    then receipt_update false tenant' inst' msg' at rows
    else if str_eq state' "read"
    then receipt_update true tenant' inst' msg' at rows
    else (rows, false)

abbrev pub is_sent_status : BroadcastRecipientProgress → Bool
is_sent_status r =
    str_eq r.delivery_status "sent"
    || str_eq r.delivery_status "delivered"
    || str_eq r.delivery_status "read"

abbrev pub is_failed_status : BroadcastRecipientProgress → Bool
is_failed_status r = str_eq r.delivery_status "failed"

abbrev pub is_pending_status : BroadcastRecipientProgress → Bool
is_pending_status r = str_eq r.delivery_status "pending"

summarize : List BroadcastRecipientProgress → BroadcastRecipientAnalytics
summarize rows = record {
  tracked_broadcasts = 0;
  total_recipients = length rows;
  attempted = count (λ r. ltb 0 r.attempt_count) rows;
  sent = count is_sent_status rows;
  delivered = count (λ r. is_some r.delivered_at) rows;
  read = count (λ r. is_some r.read_at) rows;
  failed = count is_failed_status rows;
  pending = count is_pending_status rows;
  partial = false;
}

unfoldable pub analytics_row :
    String → String → List BroadcastRecipientProgress → BroadcastRecipientAnalytics
unfolding summarize
analytics_row tenant job rows = summarize (filter (of_broadcast tenant job) rows)
