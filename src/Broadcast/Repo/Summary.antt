-- ===== src/Broadcast/Repo/Summary.antt =====
-- The figures of a summary.
use fmxevolution_go.Base.{
  ◌+◌, ◌≤◌, String, Bool, true, false, ◌&&◌, ◌||◌, ◌≡◌, refl, List, [], ◌∷◌, str_eq,
  str_eq-exclusive, Bool-cases, inl, inr, count, count-le-length, filter, length, All, All-imp, any,
  arith,
}
use fmxevolution_go.Broadcast.Model.{BroadcastRecipientProgress}
use fmxevolution_go.Broadcast.Repo.{
  of_broadcast, is_sent_status, is_failed_status, is_pending_status, analytics_row,
}

-- The statuses that the program writes.
abbrev pub HasKnownStatus : BroadcastRecipientProgress → Type 0
HasKnownStatus r =
    any (str_eq r.delivery_status) ("pending" ∷ "sent" ∷ "delivered" ∷ "read" ∷ "failed" ∷ [])
    ≡ true

known-parts :
    (r : BroadcastRecipientProgress)
    → HasKnownStatus r
    → (is_sent_status r || (is_failed_status r || is_pending_status r)) ≡ true
known-parts r h = ground arith

exclusive :
    (s : String)
    → ((str_eq s "sent" || str_eq s "delivered" || str_eq s "read") && str_eq s "failed") ≡ false
exclusive s = ground (
  arith,
  str_eq-exclusive s "sent" "failed" refl,
  str_eq-exclusive s "delivered" "failed" refl,
  str_eq-exclusive s "read" "failed" refl,
)

exclusive_pending :
    (s : String)
    → ((str_eq s "sent" || str_eq s "delivered" || str_eq s "read") && str_eq s "pending") ≡ false
exclusive_pending s = ground (
  arith,
  str_eq-exclusive s "sent" "pending" refl,
  str_eq-exclusive s "delivered" "pending" refl,
  str_eq-exclusive s "read" "pending" refl,
)

failed_or_pending : (s : String) → (str_eq s "failed" && str_eq s "pending") ≡ false
failed_or_pending s = str_eq-exclusive s "failed" "pending" refl

-- Three tests of which each element passes just one part the list.
count-partition :
    {A : Type 0} (p q r : A → Bool) (xs : List A)
    → ((x : A) → (p x && q x ≡ false) × (p x && r x ≡ false) × (q x && r x ≡ false))
    → All (λ x. (p x || (q x || r x)) ≡ true) xs
    → count p xs + count q xs + count r xs ≡ length xs
count-partition p q r [] d h = omega arith
count-partition p q r (x ∷ xs) d h = ground (arith, count-partition p q r xs d h.1, d x, h.0)

All-kept :
    {A : Type 0} (P : A → Type 0) (p : A → Bool) (xs : List A) → All P xs → All P (filter p xs)
All-kept P p [] h = tt
All-kept P p (x ∷ xs) h = elim (Bool-cases (p x)) [
  | inl hit ↦ rw hit (h.0, All-kept P p xs h.1)
  | inr miss ↦ rw miss (All-kept P p xs h.1)
]

-- In the row of figures that the SELECT for a broadcast computes, where each row of the table is
-- pending, sent, delivered, read or failed, the sent, the failed and the pending recipients add up to
-- all of them, and no other figure exceeds the total.
pub analytics_row-total :
    (tenant job : String) (rows : List BroadcastRecipientProgress)
    → All HasKnownStatus rows
    → let s = analytics_row tenant job rows in
      (s.sent + s.failed + s.pending ≡ s.total_recipients)
      × (s.attempted ≤ s.total_recipients)
      × (s.delivered ≤ s.total_recipients)
      × (s.read ≤ s.total_recipients)
unfolding analytics_row
analytics_row-total tenant job rows h =
    let own : List BroadcastRecipientProgress = filter (of_broadcast tenant job) rows in
    (
      count-partition is_sent_status is_failed_status is_pending_status own
          (λ r. (
            exclusive r.delivery_status,
            exclusive_pending r.delivery_status,
            failed_or_pending r.delivery_status,
          ))
          (All-imp HasKnownStatus _ known-parts own
            (All-kept HasKnownStatus (of_broadcast tenant job) rows h)),
      count-le-length _ own,
      count-le-length _ own,
      count-le-length _ own,
    )
