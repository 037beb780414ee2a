-- ===== src/SendStatus/Receipts.antt =====
-- What a receipt does to the registry.
use fmxevolution_go.Base.{
  ◌≤◌, String, true, false, ◌≡◌, refl, Option, none, some, List, map, str_eq, str_eq-exclusive,
  after, or_else, is_some, Bool-cases, Option-cases, ◌⊎◌, inl, inr, Time, put, to_lower, trim_space,
  arith,
}
use fmxevolution_go.SendStatus.{
  JobStatus, ReceiptUpdate, Entry, Registry, Marked, was_sent, latest, apply_state, ignored,
  mark_entry, mark_job, mark_receipt, instance_message_key,
}
use fmxevolution_go.SendStatus.Merge.{receipt-was_sent}

-- The later of the time that was there, if one was, and the time that comes in.
abbrev pub LaterOf : Time → Option Time → Option Time → Type 0
LaterOf at old new =
    (t : Time) × (new ≡ some t) × (at ≤ t) × (or_else old 0 ≤ t) × ((t ≡ at) ⊎ (old ≡ some t))

-- What a receipt changes: it is recorded at its time, or at the later one that was there, and
-- nothing else of the status is touched.
pub record Advances (state : String) (at : Time) (j k : JobStatus) : Type 0 where
  pub known_state : (str_eq state "delivered" ≡ true) ⊎ (str_eq state "read" ≡ true)
  pub delivered : LaterOf at j.delivered_at k.delivered_at
  pub read : str_eq state "read" ≡ true → LaterOf at j.read_at k.read_at
  pub unread : str_eq state "read" ≡ false → k.read_at ≡ j.read_at
  pub sent : was_sent k ≡ true
  pub rest :
      k ≡ record j { delivered_at = k.delivered_at; read_at = k.read_at; delivery_confirmed = true }

latest-LaterOf : (old : Option Time) (at : Time) → LaterOf at old (latest old at)
unfolding latest
latest-LaterOf none at = (at, refl, omega arith, omega arith, inl refl)
latest-LaterOf (some old) at = elim (Bool-cases (after at old)) [
  | inl later ↦ (at, rw later, omega arith, ground arith, inl refl)
  | inr kept ↦ (old, rw kept, ground arith, omega arith, inr refl)
]

latest-is_some : (old : Option Time) (at : Time) → is_some (latest old at) ≡ true
latest-is_some old at = let (t, e, u, v, x) = latest-LaterOf old at in rw e

delivered-other : (s : String) → str_eq s "delivered" ≡ true → str_eq s "read" ≡ false
delivered-other s h = ground (arith, str_eq-exclusive s "delivered" "read" refl)

-- The two states that change a status.
apply_state-cases :
    (state : String) (at : Time) (j k : JobStatus)
    → apply_state state at j ≡ some k
    → (k ≡ record j { delivered_at = latest j.delivered_at at; delivery_confirmed = true })
        × (str_eq state "delivered" ≡ true)
      ⊎ (k ≡ record j {
        delivered_at = latest j.delivered_at at;
        read_at = latest j.read_at at;
        delivery_confirmed = true;
      })
        × (str_eq state "delivered" ≡ false)
        × (str_eq state "read" ≡ true)
unfolding apply_state
apply_state-cases state at j k h = elim (Bool-cases (str_eq state "delivered")) [
  | inl d ↦ inl (ground arith, d)
  | inr n ↦ elim (Bool-cases (str_eq state "read")) [
    | inl r ↦ inr (ground arith, n, r)
    | inr m ↦ absurd (ground arith)
  ]
]

pub apply_state-Advances :
    (state : String) (at : Time) (j k : JobStatus)
    → apply_state state at j ≡ some k
    → Advances state at j k
apply_state-Advances state at j k h = elim (apply_state-cases state at j k h) [
  | inl (q, s) ↦ rw q (record {
    known_state = inl s;
    delivered = latest-LaterOf j.delivered_at at;
    read = λ r. absurd (grind (arith, delivered-other state s));
    unread = λ _. refl;
    sent = receipt-was_sent _ (rw (latest-is_some j.delivered_at at));
    rest = refl;
  })
  | inr (q, s, t) ↦ rw q (record {
    known_state = inr t;
    delivered = latest-LaterOf j.delivered_at at;
    read = λ _. latest-LaterOf j.read_at at;
    unread = λ u. absurd (grind arith);
    sent = receipt-was_sent _ (rw (latest-is_some j.delivered_at at));
    rest = refl;
  })
]

apply_state-none :
    (state : String) (at : Time) (j : JobStatus)
    → apply_state state at j ≡ none
    → (str_eq state "delivered" ≡ false) × (str_eq state "read" ≡ false)
unfolding apply_state
apply_state-none state at j h = elim (Bool-cases (str_eq state "delivered")) [
  | inl d ↦ absurd (ground arith)
  | inr n ↦ elim (Bool-cases (str_eq state "read")) [
    | inl r ↦ absurd (ground arith)
    | inr m ↦ (n, m)
  ]
]

module _ {L : Type 0} (inst msg state : String) (at : Time) where
  abbrev pub told : Registry L → List (L × ReceiptUpdate)
  told g =
      map
        (λ l. (
          l,
          record {
            instance_id = inst;
            message_id = msg;
            state = to_lower (trim_space state);
            at = at;
          },
        ))
        g.listeners

  -- A receipt that finds its job.
  pub record Recorded (g : Registry L) (m : Marked L) : Type 0 where
    pub key : String
    pub entry : Entry
    pub status : JobStatus
    pub indexed : g.message_index (instance_message_key inst msg) ≡ some key
    pub known : g.jobs key ≡ some entry
    pub applied : apply_state (to_lower (trim_space state)) at entry.status ≡ some status
    pub advances : Advances (to_lower (trim_space state)) at entry.status status
    pub found : m.found ≡ true
    pub registry :
        m.registry ≡ record g { jobs = put key (record entry { status = status }) g.jobs }
    pub calls : m.calls ≡ told g

  -- Why a receipt is not recorded: its message or its job is not known, or its state is neither
  -- `delivered` nor `read`.
  pub data Dropped (g : Registry L) : Type 0 where
    no_message : g.message_index (instance_message_key inst msg) ≡ none → Dropped g
    no_job :
        (key : String)
        → g.message_index (instance_message_key inst msg) ≡ some key
        → g.jobs key ≡ none
        → Dropped g
    no_state :
        str_eq (to_lower (trim_space state)) "delivered" ≡ false
        → str_eq (to_lower (trim_space state)) "read" ≡ false
        → Dropped g

  -- A receipt either is for no known message or job or in no known state, and then returns false,
  -- changes nothing and calls nobody; or it is recorded in the job of its message: one of delivery at
  -- the time of delivery, one of reading at that and at the time of reading, each the later of the
  -- time of the receipt and the one that was there; the job counts as sent from then on, nothing
  -- else of it changes, and one call of each listener is started.
  pub mark_receipt-Recorded :
      (g : Registry L)
      → (Dropped g × (mark_receipt inst msg state at g ≡ ignored g))
        ⊎ Recorded g (mark_receipt inst msg state at g)
  unfolding mark_receipt
  mark_receipt-Recorded g = elim (Option-cases (g.message_index (instance_message_key inst msg))) [
    | inl gone ↦ inl (no_message gone, rw (gone, mark_receipt))
    | inr (key, indexed) ↦ elim (Option-cases (g.jobs key)) [
      | inl gone ↦ inl (no_job key indexed gone, rw (indexed, mark_receipt, gone, mark_job))
      | inr (e, known) ↦
          elim (Option-cases (apply_state (to_lower (trim_space state)) at e.status)) [
            | inl gone ↦
                let (a, b) = apply_state-none (to_lower (trim_space state)) at e.status gone in
                inl (no_state a b, rw (indexed, mark_receipt, known, mark_job, gone, mark_entry))
            | inr (k, applied) ↦ inr (record {
              key = key;
              entry = e;
              status = k;
              indexed = indexed;
              known = known;
              applied = applied;
              advances = apply_state-Advances (to_lower (trim_space state)) at e.status k applied;
              found = rw (indexed, mark_receipt, known, mark_job, applied, mark_entry);
              registry = rw (indexed, mark_receipt, known, mark_job, applied, mark_entry);
              calls = rw (indexed, mark_receipt, known, mark_job, applied, mark_entry);
            })
          ]
    ]
  ]
