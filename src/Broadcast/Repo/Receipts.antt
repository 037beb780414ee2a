-- ===== src/Broadcast/Repo/Receipts.antt =====
-- What a receipt changes in the rows of the recipients.
use fmxevolution_go.Base.{
  ◌≤◌, String, Bool, true, false, ◌≡◌, refl, some, List, [], ◌∷◌, str_eq, eq_iff, if◌then◌else◌,
  or_else, Bool-cases, inl, inr, Time, trim_space, Pointwise, done, pair, Pointwise-refl, arith,
}
use fmxevolution_go.Broadcast.Model.{BroadcastRecipientProgress}
use fmxevolution_go.Broadcast.Repo.{
  update_rows, receipt_matches, apply_receipt, receipt_update, mark_recipient_receipt,
}

-- How a receipt for a tenant may change a row.
pub record Advances (tenant : String) (r s : BroadcastRecipientProgress) : Type 0 where
  pub same_key :
      (s.id ≡ r.id)
      × (s.broadcast_id ≡ r.broadcast_id)
      × (s.phone ≡ r.phone)
      × (s.tenant_id ≡ r.tenant_id)
      × (s.message_id ≡ r.message_id)
  pub same_send :
      (s.attempt_count ≡ r.attempt_count) × (s.sent_at ≡ r.sent_at) × (s.failed_at ≡ r.failed_at)
  pub failed_stays : r.delivery_status ≡ "failed" → s ≡ r
  pub read_stays : r.delivery_status ≡ "read" → s.delivery_status ≡ "read"
  pub first_delivery : (at : Time) → r.delivered_at ≡ some at → s.delivered_at ≡ some at
  pub latest_read : (at : Time) → r.read_at ≡ some at → at ≤ or_else s.read_at 0
  pub foreign : str_eq r.tenant_id (trim_space tenant) ≡ false → s ≡ r

Advances-refl : (tenant : String) (r : BroadcastRecipientProgress) → Advances tenant r r
Advances-refl tenant r = record {
  same_key = (refl, refl, refl, refl, refl);
  same_send = (refl, refl, refl);
  failed_stays = λ _. refl;
  read_stays = λ h. h;
  first_delivery = λ at h. h;
  latest_read = λ at h. ground arith;
  foreign = λ _. refl;
}

module _ (is_read : Bool) (tenant inst msg : String) (at : Time) where
  module _ (r : BroadcastRecipientProgress)
      (m : receipt_matches is_read (trim_space tenant) inst msg r ≡ true) where
    not_failed : ¬ (r.delivery_status ≡ "failed")
    unfolding receipt_matches
    not_failed e = ground (arith, eq_iff r.delivery_status "failed")

    own : str_eq r.tenant_id (trim_space tenant) ≡ true
    unfolding receipt_matches
    own = ground arith

    read_only : r.delivery_status ≡ "read" → is_read ≡ true
    unfolding receipt_matches
    read_only e = ground (arith, eq_iff r.delivery_status "read")

    read_result : is_read ≡ true → (apply_receipt is_read at r).delivery_status ≡ "read"
    unfolding apply_receipt
    read_result e = rw e

    apply_receipt-Advances : Advances tenant r (apply_receipt is_read at r)
    unfolding apply_receipt
    apply_receipt-Advances = record {
      same_key = ground arith;
      same_send = ground arith;
      failed_stays = λ e. absurd (not_failed e);
      read_stays = λ e. read_result (read_only e);
      first_delivery = λ t e. ground arith;
      latest_read = λ t e. ground arith;
      foreign = λ e. absurd (ground (arith, own));
    }

  receipt-Pointwise :
      (rows : List BroadcastRecipientProgress)
      → Pointwise (Advances tenant) rows (
          update_rows
            (receipt_matches is_read (trim_space tenant) inst msg)
            (apply_receipt is_read at)
            rows)
  unfolding update_rows
  receipt-Pointwise [] = done
  receipt-Pointwise (r ∷ rows) =
      elim (Bool-cases (receipt_matches is_read (trim_space tenant) inst msg r)) [
        | inl hit ↦ rw hit (pair (apply_receipt-Advances r hit) (receipt-Pointwise rows))
        | inr miss ↦ rw miss (pair (Advances-refl tenant r) (receipt-Pointwise rows))
      ]

choose : {A : Type 0} (P : A → Type 0) (b : Bool) (x y : A) → P x → P y → P (if b then x else y)
choose P true x y p q = p
choose P false x y p q = q

-- A receipt, whatever its texts and time, keeps the number and the order of the rows, and row by
-- row: their keys and what was sent; a failed row and a row of another tenant as they are; a read
-- row read; the first time of delivery once it is set; and a time of reading that never goes back.
pub mark_recipient_receipt-Advances :
    (tenant inst msg state : String) (at : Time) (rows : List BroadcastRecipientProgress)
    → Pointwise (Advances tenant) rows (mark_recipient_receipt tenant inst msg state at rows).0
unfolding mark_recipient_receipt receipt_update
mark_recipient_receipt-Advances tenant inst msg state at rows =
    let P : List BroadcastRecipientProgress × Bool → Type 0 =
      λ x. Pointwise (Advances tenant) rows x.0 in
    let same : P (rows, false) = Pointwise-refl (Advances tenant) (Advances-refl tenant) rows in
    choose P _ _ _ same (
      choose P _ _ _ (receipt-Pointwise false tenant (trim_space inst) (trim_space msg) at rows) (
        choose P _ _ _ (receipt-Pointwise true tenant (trim_space inst) (trim_space msg) at rows)
          same))
