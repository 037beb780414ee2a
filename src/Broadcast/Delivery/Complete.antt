-- ===== src/Broadcast/Delivery/Complete.antt =====
-- What a whole run of `Process` leaves behind.
use fmxevolution_go.Base.{
  is_nil, All-filtered, filter, Bool, true, false, not, ◌&&◌, String, ◌≡◌, List, [], ◌∷◌, arith,
  eq_refl, All, All-imp, any_self, any-filter, any-order_by,
}
use fmxevolution_go.Base.Effect.{
  Triple-fail_if, M, ok, Triple, Triple-bind, Triple-map_err, Triple-pure,
}
use fmxevolution_go.Broadcast.Model.{BroadcastJob, BroadcastRecipientProgress}
use fmxevolution_go.Broadcast.Repo.{same_key, of_broadcast, list_recipient_progress}
use fmxevolution_go.Broadcast.Env.{Env, World, db_call}
use fmxevolution_go.Broadcast.Recipients.{
  BroadcastRecipient, is_settled, pending_recipient_progress, eligible_broadcast_recipients,
}
use fmxevolution_go.Broadcast.Processor.{
  list_progress, seed_and_list, or_seed, load_or_seed_recipient_progress, process, deliver_all,
}
use fmxevolution_go.Broadcast.Delivery.Rows.{Row, Covers}
use fmxevolution_go.Broadcast.Delivery.Coverage.{Triple-deliver_all}

-- Every unsettled row of the job is among the pending ones of the list that is read.
pending-covers :
    (le : String → String → Bool) (job : BroadcastJob) (rows : List BroadcastRecipientProgress)
    → All
        (Row job
          (pending_recipient_progress (list_recipient_progress le job.tenant_id job.id rows)))
        rows
unfolding pending_recipient_progress list_recipient_progress
pending-covers le job rows =
    All-imp _ _
      (λ x h o u.
        rw (any-filter, any-order_by, any-filter)
          (h (λ y. of_broadcast job.tenant_id job.id y && (not (is_settled y) && same_key x y))
            (ground (arith, eq_refl x.broadcast_id, eq_refl x.phone))))
      rows (any_self rows)

-- The list read covers the table.
abbrev Read : BroadcastJob → List BroadcastRecipientProgress → World → Type 0
Read job progress w = is_nil progress ≡ false → Covers job (pending_recipient_progress progress) w

list-ok :
    (env : Env) (job : BroadcastJob) (w t : World) (l : List BroadcastRecipientProgress)
    → list_progress env job w ≡ (ok l, t)
    → (l ≡ list_recipient_progress env.phone_le job.tenant_id job.id t.db.progress)
unfolding list_progress db_call
list-ok env job w t l h = ground arith

module _ {P : World → Type 0} (job : BroadcastJob) (env : Env) where
  Triple-list : Triple P (list_progress env job) (Read job)
  Triple-list = record {
    at =
        λ w h l t e n. rw (list-ok env job w t l e) (pending-covers env.phone_le job t.db.progress);
  }

  Triple-any : {E A : Type 0} {m : M World E A} → Triple P m (λ _ _. Unit {0})
  Triple-any = record { at = λ w h a t e. tt }

module _ (job : BroadcastJob) (env : Env) where
  abbrev Anything : World → Type 0
  Anything w = Unit {0}

  Triple-seed_and_list :
      (rs : List BroadcastRecipient) → Triple Anything (seed_and_list env job rs) (Read job)
  unfolding seed_and_list
  Triple-seed_and_list [] = Triple-pure [] (λ w h n. cc)
  Triple-seed_and_list (r ∷ rs) =
      Triple-bind (λ _. Anything) (Triple-any job env)
        λ _.
          Triple-bind (λ _. Anything) (Triple-any job env)
            λ _. Triple-map_err _ (Triple-list job env)

  Triple-or_seed :
      (l : List BroadcastRecipientProgress) → Triple (Read job l) (or_seed env job l) (Read job)
  unfolding or_seed
  Triple-or_seed (r ∷ rs) = Triple-pure (r ∷ rs) (λ w h. h)
  Triple-or_seed [] =
      Triple-bind (λ _. Anything) (Triple-any job env)
        λ _.
          Triple-bind (λ _. Anything) (Triple-any job env)
            λ contacts.
              Triple-seed_and_list (eligible_broadcast_recipients contacts job.instance_id)

  Triple-load : Triple Anything (load_or_seed_recipient_progress env job) (Read job)
  unfolding load_or_seed_recipient_progress
  Triple-load =
      Triple-bind (λ _. Anything) (Triple-any job env)
        λ _. Triple-bind (Read job) (Triple-map_err _ (Triple-list job env)) λ l. Triple-or_seed l

  Triple-deliver :
      (inst : String) (l : List BroadcastRecipientProgress)
      → Triple
          (λ w. (is_nil l ≡ false) × Read job l w)
          (deliver_all env job inst true (pending_recipient_progress l))
          (λ _. Covers job [])
  Triple-deliver inst l = record {
    at = λ w h a t e.
        (Triple-deliver_all job env inst true (pending_recipient_progress l)).at w (h.1 h.0) a t e;
  }

Triple-process :
    (job : BroadcastJob) (env : Env) → Triple (λ w. Unit {0}) (process env job) (λ _. Covers job [])
unfolding process
Triple-process job env =
    Triple-bind (λ _. Anything job env) (Triple-any job env)
      λ _.
        Triple-bind (λ _. Anything job env) (Triple-any job env)
          λ _.
            Triple-bind (λ _. Anything job env) (Triple-any job env)
              λ _.
                Triple-bind (λ _. Anything job env) (Triple-any job env)
                  λ inst. Triple-bind (Read job) (Triple-load job env) λ l.
                    Triple-bind (λ _ w. (is_nil l ≡ false) × Read job l w)
                      (Triple-fail_if (is_nil l) _) λ _. Triple-deliver job env inst.id l

-- A run of `Process` that ends without an error leaves every row of the job settled: each is sent,
-- delivered, read or failed, whatever the clock, the context, the database and the other services
-- answered on the way.
pub process-settled :
    (env : Env) (job : BroadcastJob) (w t : World)
    → process env job w ≡ (ok tt, t)
    → All (λ x. is_settled x ≡ true) (filter (of_broadcast job.tenant_id job.id) t.db.progress)
process-settled env job w t e = All-filtered _ (of_broadcast job.tenant_id job.id) t.db.progress (
    All-imp (Row job []) _ (λ x h o. settled x (h o)) t.db.progress
      ((Triple-process job env).at w tt tt t e))
  where
    settled :
        (x : BroadcastRecipientProgress)
        → (is_settled x ≡ false → ◌≡◌ {A = Bool} false true)
        → is_settled x ≡ true
    settled x h = ground arith
