-- ===== src/Broadcast/Recipients.antt =====
-- Who receives a broadcast: `eligibleBroadcastRecipients`, `pendingRecipientProgress`,
-- `isPermanentSendError` and `isConfirmedSendAttempt` of internal/broadcast/processor.go.
pub mod Eligible
use fmxevolution_go.Base.{
  ℕ, String, Bool, true, false, not, ◌&&◌, ◌||◌, Option, none, some, List, [], ◌∷◌, map, str_eq,
  ◌==◌, if◌then◌else◌, is_zero_time, trim_space, to_lower, contains, is_blank, filter, any,
}
use fmxevolution_go.Domain.{Kind, GoError, sentinel_text}
use fmxevolution_go.Broadcast.Model.{BroadcastRecipientProgress, BroadcastJob, new_progress}
use fmxevolution_go.Broadcast.Env.{Contact, SendTextResult}

pub record BroadcastRecipient : Type 0 where
  pub contact_id : Option String
  pub phone : String

-- The loop of `eligibleBroadcastRecipients`; `seen` holds the numbers taken so far.
eligible_from : String → List String → List Contact → List BroadcastRecipient
eligible_from inst seen [] = []
eligible_from inst seen (c ∷ cs) =
    let phone = trim_space c.phone in
    let linked = trim_space c.instance_id in
    let skip =
      str_eq phone ""
      || (not (str_eq linked "") && not (str_eq linked inst))
      || any (λ s. str_eq s phone) seen in
    let skipped = eligible_from inst seen cs in
    let contact_id = if is_blank c.id then none else some (trim_space c.id) in
    let taken =
      record { contact_id = contact_id; phone = phone } ∷ eligible_from inst (phone ∷ seen) cs in
    if skip then skipped else taken

unfoldable pub eligible_broadcast_recipients : List Contact → String → List BroadcastRecipient
unfolding eligible_from
eligible_broadcast_recipients contacts inst = eligible_from inst [] contacts

-- The rows that a job is seeded with.
unfoldable pub seed_records :
    BroadcastJob → List BroadcastRecipient → List BroadcastRecipientProgress
unfolding new_progress
seed_records job = map (λ r. new_progress job.id job.tenant_id job.instance_id r.contact_id r.phone)

-- A row that no run takes up again.
unfoldable pub is_settled : BroadcastRecipientProgress → Bool
is_settled r =
    let status = to_lower (trim_space r.delivery_status) in
    str_eq status "sent"
    || str_eq status "delivered"
    || str_eq status "read"
    || str_eq status "failed"

unfoldable pub pending_recipient_progress :
    List BroadcastRecipientProgress → List BroadcastRecipientProgress
pending_recipient_progress = filter (λ r. not (is_settled r))

unfoldable pub is_permanent_send_error : GoError → Bool
unfolding sentinel_text
is_permanent_send_error e =
    let text = to_lower e.text in
    contains text (sentinel_text Kind.validation)
    || contains text (sentinel_text Kind.forbidden)
    || contains text (sentinel_text Kind.not_found)
    || contains text "not registered on whatsapp"

confirmed_by : SendTextResult → Bool
confirmed_by r =
    not (is_blank r.message_id)
    || not (r.server_id == 0)
    || not (is_zero_time r.timestamp)
    || not (is_blank r.chat)

unfoldable pub is_confirmed_send_attempt : Option SendTextResult → Bool
unfolding confirmed_by
is_confirmed_send_attempt none = false
is_confirmed_send_attempt (some r) = confirmed_by r
