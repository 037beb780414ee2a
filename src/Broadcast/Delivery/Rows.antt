-- ===== src/Broadcast/Delivery/Rows.antt =====
-- Which rows a save settles, and which it leaves as they are.
use fmxevolution_go.Base.{
  true, false, ◌≡◌, refl, List, [], ◌∷◌, arith, eq_iff, All, All-append, Bool-cases, inl, inr,
}
use fmxevolution_go.Broadcast.Model.{BroadcastJob, BroadcastRecipientProgress}
use fmxevolution_go.Broadcast.Repo.{
  same_key, has_key, update_rows, overwrite, save_recipient_progress, of_broadcast,
}
use fmxevolution_go.Broadcast.Env.{World}
use fmxevolution_go.Broadcast.Recipients.{is_settled}

-- Every unsettled row of the job has the key of a row of `rs`.
abbrev pub Row :
    BroadcastJob → List BroadcastRecipientProgress → BroadcastRecipientProgress → Type 0
Row job rs x =
    of_broadcast job.tenant_id job.id x ≡ true → is_settled x ≡ false → has_key x rs ≡ true

abbrev pub Covers : BroadcastJob → List BroadcastRecipientProgress → World → Type 0
Covers job rs w = All (Row job rs) w.db.progress

same_key-sym : (a b : BroadcastRecipientProgress) → same_key a b ≡ same_key b a
same_key-sym a b = ground (
  arith,
  eq_iff a.broadcast_id b.broadcast_id,
  eq_iff b.broadcast_id a.broadcast_id,
  eq_iff a.phone b.phone,
  eq_iff b.phone a.phone,
)

is_settled-overwrite :
    (q old : BroadcastRecipientProgress) → is_settled (overwrite q old) ≡ is_settled q
unfolding is_settled overwrite
is_settled-overwrite q old = refl

module _ (job : BroadcastJob) (r : BroadcastRecipientProgress)
    (rs : List BroadcastRecipientProgress) where
  -- A settled row in the place of `r` takes `r` off the list.
  update-settled :
      (q : BroadcastRecipientProgress) (rows : List BroadcastRecipientProgress)
      → q.broadcast_id ≡ r.broadcast_id
      → q.phone ≡ r.phone
      → is_settled q ≡ true
      → All (Row job (r ∷ rs)) rows
      → All (Row job rs) (update_rows (same_key q) (overwrite q) rows)
  unfolding update_rows
  update-settled q [] b p s h = tt
  update-settled q (x ∷ rows) b p s h = ground (
    arith,
    update-settled q rows b p s h.1,
    is_settled-overwrite q x,
    same_key-sym x q,
    same_key-sym x r,
  )

  absent-settled :
      (q : BroadcastRecipientProgress) (rows : List BroadcastRecipientProgress)
      → q.broadcast_id ≡ r.broadcast_id
      → q.phone ≡ r.phone
      → has_key q rows ≡ false
      → All (Row job (r ∷ rs)) rows
      → All (Row job rs) rows
  absent-settled q [] b p n h = tt
  absent-settled q (x ∷ rows) b p n h =
      ground (arith, absent-settled q rows b p, same_key-sym x q, same_key-sym x r, h.0, h.1)

  pub save-settled :
      (q : BroadcastRecipientProgress) (rows : List BroadcastRecipientProgress)
      → q.broadcast_id ≡ r.broadcast_id
      → q.phone ≡ r.phone
      → is_settled q ≡ true
      → All (Row job (r ∷ rs)) rows
      → All (Row job rs) (save_recipient_progress q rows)
  unfolding save_recipient_progress
  save-settled q rows b p s h = elim (Bool-cases (has_key q rows)) [
    | inl hit ↦ rw (hit, save_recipient_progress) (update-settled q rows b p s h)
    | inr miss ↦
        rw (miss, save_recipient_progress)
          (All-append (Row job rs) rows (q ∷ []) (absent-settled q rows b p miss h)
            ((λ _ u. cc), tt))
  ]

  -- Any row in the place of `r` keeps the list.
  update-keeps :
      (q : BroadcastRecipientProgress) (rows : List BroadcastRecipientProgress)
      → q.broadcast_id ≡ r.broadcast_id
      → q.phone ≡ r.phone
      → All (Row job (r ∷ rs)) rows
      → All (Row job (r ∷ rs)) (update_rows (same_key q) (overwrite q) rows)
  unfolding update_rows overwrite
  update-keeps q [] b p h = tt
  update-keeps q (x ∷ rows) b p h =
      ground (arith, update-keeps q rows b p h.1, same_key-sym x q, same_key-sym x r)

  pub save-keeps :
      (q : BroadcastRecipientProgress) (rows : List BroadcastRecipientProgress)
      → q.broadcast_id ≡ r.broadcast_id
      → q.phone ≡ r.phone
      → All (Row job (r ∷ rs)) rows
      → All (Row job (r ∷ rs)) (save_recipient_progress q rows)
  unfolding save_recipient_progress
  save-keeps q rows b p h = elim (Bool-cases (has_key q rows)) [
    | inl hit ↦ rw (hit, save_recipient_progress) (update-keeps q rows b p h)
    | inr miss ↦
        rw (miss, save_recipient_progress)
          (All-append (Row job (r ∷ rs)) rows (q ∷ []) h (
            (λ _ u. ground (arith, eq_iff q.broadcast_id r.broadcast_id, eq_iff q.phone r.phone)),
            tt,
          ))
  ]
