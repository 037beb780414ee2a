-- ===== src/Broadcast/Delivery/Progress.antt =====
-- When a run of `Process` ends well.
use fmxevolution_go.Base.{
  is_nil, filter, ℕ, suc, Bool, true, false, not, ◌&&◌, ◌||◌, String, ◌≡◌, refl, Option, none, some,
  List, [], ◌∷◌, arith, ap, is_blank, All, Time,
}
use fmxevolution_go.Base.Effect.{
  Runs-fail_if, ◌>>=◌, Out, ok, err, Runs, Runs-bind, Runs-map_err, Runs-pure, pure, map_err,
}
use fmxevolution_go.Domain.{GoError}
use fmxevolution_go.Broadcast.Model.{BroadcastJob, BroadcastRecipientProgress}
use fmxevolution_go.Broadcast.Repo.{
  Db, save_recipient_progress, list_recipient_progress, of_broadcast,
}
use fmxevolution_go.Broadcast.Env.{
  Env, World, Instance, SendCall, SendTextResult, ask, request, check_context, db_call,
  send_text_call,
}
use fmxevolution_go.Broadcast.Recipients.{
  is_settled, pending_recipient_progress, is_permanent_send_error, is_confirmed_send_attempt,
}
use fmxevolution_go.Broadcast.Processor.{
  caught, save, list_progress, settle, pace, attempt, deliver_one, deliver_all, find_instance,
  or_seed, load_or_seed_recipient_progress, process, failed_for_good, delivered,
}
use fmxevolution_go.Broadcast.Delivery.Complete.{process-settled}

-- An answer that settles its row: a confirmed send, or an error that no retry mends.
abbrev pub is_conclusive : Out GoError (Option SendTextResult) → Bool
is_conclusive (ok r) = is_confirmed_send_attempt r
is_conclusive (err e) = is_permanent_send_error e

abbrev Always : World → Type 0
Always w = Unit {0}

abbrev Fine : {A : Type 0} → A → World → Type 0
Fine a w = Unit {0}

Runs-ask : {E A : Type 0} (f : ℕ → A) → Runs {E = E} Always (ask f) Fine
unfolding ask
Runs-ask f = record { run = λ w h. (f w.tick, _, refl, tt) }

module _ (env : Env) (calm : (n : ℕ) → env.cancelled n ≡ none)
    (sound : (n : ℕ) → env.db_fault n ≡ none) where
  -- A look at the context leaves the tables as they are.
  Runs-check_context : (d : Db) → Runs (λ w. w.db ≡ d) (check_context env) (λ _ t. t.db ≡ d)
  unfolding check_context
  Runs-check_context d = record {
    run = λ w h. (tt, record w { tick = suc w.tick }, ground (arith, calm w.tick), h);
  }

  Runs-check : Runs Always (check_context env) Fine
  Runs-check = record {
    run = λ w h. let (a, t, e, k) = (Runs-check_context w.db).run w refl in (a, t, e, tt);
  }

  Runs-save : (r : BroadcastRecipientProgress) → Runs Always (save env r) Fine
  unfolding save db_call
  Runs-save r = record {
    run = λ w h. (
      tt,
      record w {
        tick = suc w.tick;
        db = record w.db { progress = save_recipient_progress r w.db.progress };
      },
      ground (arith, sound w.tick),
      tt,
    );
  }

  Runs-list :
      (job : BroadcastJob) (d : Db)
      → Runs
          (λ w. w.db ≡ d)
          (list_progress env job)
          (λ l _. l ≡ list_recipient_progress env.phone_le job.tenant_id job.id d.progress)
  unfolding list_progress db_call
  Runs-list job d = record {
    run = λ w h. (
      list_recipient_progress env.phone_le job.tenant_id job.id w.db.progress,
      record w { tick = suc w.tick },
      ground (arith, sound w.tick),
      ap (λ x. list_recipient_progress env.phone_le job.tenant_id job.id x.progress) h,
    );
  }

  Runs-pace : (first : Bool) (phone : String) → Runs Always (pace env first phone) Fine
  unfolding pace
  Runs-pace true phone = Runs-pure tt (λ w h. tt)
  Runs-pace false phone = Runs-map_err _ Runs-check

  Runs-settle :
      (at : Time) (r : BroadcastRecipientProgress) (a : Out GoError (Option SendTextResult))
      → is_conclusive a ≡ true
      → Runs Always (settle env at r a) Fine
  unfolding settle
  Runs-settle at r (err e) h =
      rw (h, settle)
        (Runs-bind Fine (Runs-ask env.clock)
          (λ t. Runs-map_err _ (Runs-save (failed_for_good t e r))))
  Runs-settle at r (ok none) h = absurd (unfold is_confirmed_send_attempt in cc)
  Runs-settle at r (ok (some x)) h = rw (h, settle) (Runs-map_err _ (Runs-save (delivered at x r)))

  module _ (answers : (n : ℕ) (c : SendCall) → is_conclusive (env.send_text n c) ≡ true) where
    Runs-send :
        {E : Type 0} (c : SendCall)
        → Runs {E = E} Always (caught (send_text_call env c)) (λ a _. is_conclusive a ≡ true)
    unfolding send_text_call
    Runs-send c = record {
      run = λ w h. (env.send_text w.tick c, (send_text_call env c w).1, refl, answers w.tick c);
    }

    Runs-deliver_one :
        (job : BroadcastJob) (inst : String) (first : Bool) (r : BroadcastRecipientProgress)
        → Runs Always (deliver_one env job inst first r) Fine
    unfolding deliver_one
    Runs-deliver_one job inst first r = Runs-bind Fine (Runs-map_err _ Runs-check) λ _.
        Runs-bind Fine (Runs-pace first r.phone) λ _. Runs-bind Fine (Runs-ask env.clock) λ at.
          Runs-bind Fine (Runs-map_err _ (Runs-save (attempt at r))) λ _.
            Runs-bind Fine (Runs-map_err _ Runs-check) λ _.
              Runs-bind (λ a _. is_conclusive a ≡ true) (Runs-send _)
                λ a. record { run = λ w h. (Runs-settle at (attempt at r) a h).run w tt }

    Runs-deliver_all :
        (job : BroadcastJob) (inst : String) (first : Bool) (rs : List BroadcastRecipientProgress)
        → Runs Always (deliver_all env job inst first rs) Fine
    unfolding deliver_all
    Runs-deliver_all job inst first [] = Runs-pure tt (λ w h. tt)
    Runs-deliver_all job inst first (r ∷ rs) =
        Runs-bind Fine (Runs-deliver_one job inst first r) λ _. Runs-deliver_all job inst false rs

  -- Rows that are there are read, and none is seeded.
  Runs-load :
      (job : BroadcastJob) (d : Db)
      → is_nil (list_recipient_progress env.phone_le job.tenant_id job.id d.progress) ≡ false
      → Runs (λ w. w.db ≡ d) (load_or_seed_recipient_progress env job) (λ l _. is_nil l ≡ false)
  unfolding load_or_seed_recipient_progress or_seed
  Runs-load job d some_rows =
      Runs-bind (λ _ w. w.db ≡ d) (Runs-map_err _ (Runs-check_context d))
        λ _.
          Runs-bind (λ l _. is_nil l ≡ false)
            (Runs-map_err _ (record {
              run =
                  λ w h. let (l, t, e, k) = (Runs-list job d).run w h in (l, t, e, rw k some_rows);
            }))
            found_rows
    where
      found_rows :
          (l : List BroadcastRecipientProgress)
          → Runs (λ _. is_nil l ≡ false) (or_seed env job l) (λ k _. is_nil k ≡ false)
      found_rows [] = record { run = λ w h. absurd cc }
      found_rows (r ∷ rs) = Runs-pure (r ∷ rs) (λ w h. h)

  Runs-find_instance :
      (job : BroadcastJob) (inst : Instance) (d : Db)
      → ((n : ℕ) → env.get_by_id n job.tenant_id job.instance_id ≡ ok (some inst))
      → Runs (λ w. w.db ≡ d) (find_instance env job) (λ _ t. t.db ≡ d)
  unfolding find_instance request ◌>>=◌ map_err pure
  Runs-find_instance job inst d found = record {
    run = λ w h. (inst, record w { tick = suc w.tick }, ground (arith, found w.tick), h);
  }

-- Where the context is not cancelled, the database accepts every call, the service has its parts,
-- the job names its tenant, instance and message, the instance is found, rows of the job are there,
-- and every call of `SendText` is answered by a confirmed send or a permanent error, a run of
-- `Process` ends without an error and leaves every row of the job settled.
pub process-Runs :
    (env : Env) (job : BroadcastJob) (w : World) (inst : Instance)
    → ((n : ℕ) → env.cancelled n ≡ none)
    → ((n : ℕ) → env.db_fault n ≡ none)
    → (env.has_repo && env.has_instances && env.has_contacts && env.has_sender) ≡ true
    → (is_blank job.tenant_id || is_blank job.instance_id || is_blank job.message) ≡ false
    → ((n : ℕ) → env.get_by_id n job.tenant_id job.instance_id ≡ ok (some inst))
    → is_nil (list_recipient_progress env.phone_le job.tenant_id job.id w.db.progress) ≡ false
    → ((n : ℕ) (c : SendCall) → is_conclusive (env.send_text n c) ≡ true)
    → (t : World) × (process env job w ≡ (ok tt, t))
      × All (λ x. is_settled x ≡ true) (filter (of_broadcast job.tenant_id job.id) t.db.progress)
unfolding process
process-Runs env job w inst calm sound parts filled found some_rows answers =
    let all : Runs (λ v. v.db ≡ w.db) (process env job) (λ _ _. Unit {0}) =
      Runs-bind (λ _ v. v.db ≡ w.db) (Runs-map_err _ (Runs-check_context env calm sound w.db))
        λ _.
          Runs-bind (λ _ v. v.db ≡ w.db) (Runs-fail_if _ _ (ap not parts))
            λ _.
              Runs-bind (λ _ v. v.db ≡ w.db) (Runs-fail_if _ _ filled)
                λ _.
                  Runs-bind (λ _ v. v.db ≡ w.db)
                    (Runs-find_instance env calm sound job inst w.db found)
                    λ i.
                      Runs-bind (λ l _. is_nil l ≡ false)
                        (Runs-load env calm sound job w.db some_rows)
                        λ l.
                          Runs-bind (λ _ _. Unit {0})
                            (record {
                              run = λ v h.
                                  let (a, t, e, k) =
                                    (Runs-fail_if {P = λ _. is_nil l ≡ false} (is_nil l) _ h).run v
                                      h in
                                  (a, t, e, tt);
                            })
                            λ _.
                              Runs-deliver_all env calm sound answers job i.id true
                                (pending_recipient_progress l) in
    let (a, t, e, k) = all.run w refl in (t, e, process-settled env job w t e)
