-- ===== src/RuntimeObs/Notified.antt =====
-- What becomes of a report, and what the listeners are called with.
use fmxevolution_go.Base.{
  ◌+◌, ◌-◌, ◌*◌, ◌≤◌, ◌<◌, String, Bool, true, false, not, ◌&&◌, ◌||◌, ◌≡◌, refl, subst, inl, inr,
  List, [], ◌∷◌, map, str_eq, ltb, ◌==◌, if◌then◌else◌, Bool-cases, Time, put, or_else,
  is_zero_time, is_blank, trim_space, second, concat, arith,
}
use fmxevolution_go.RuntimeObs.{
  LifecycleEvent, Registry, lifecycle_status_observed_min_interval, bool_key, duplicate_key,
  normalize, should_drop_duplicate_lifecycle_event, notify_lifecycle_event,
}

module _ {P : Type 0} where
  -- The event as it is told: without white space around its texts, and at the time of the report if
  -- it has none.
  abbrev pub reported : Time → LifecycleEvent P → LifecycleEvent P
  reported now e = record {
    instance_id = trim_space e.instance_id;
    event_type = trim_space e.event_type;
    event_source = trim_space e.event_source;
    status = trim_space e.status;
    connected = e.connected;
    logged_in = e.logged_in;
    pairing_active = e.pairing_active;
    disconnect_reason = trim_space e.disconnect_reason;
    error_message = trim_space e.error_message;
    message = trim_space e.message;
    payload = e.payload;
    occurred_at = if e.occurred_at == 0 then now else e.occurred_at;
  }

  -- What two observations have in common that count as one.
  abbrev pub observation_key : LifecycleEvent P → String
  observation_key e = concat (
      e.instance_id
      ∷ "\0"
      ∷ e.event_type
      ∷ "\0"
      ∷ e.status
      ∷ "\0"
      ∷ (if e.connected then "true" else "false")
      ∷ "\0"
      ∷ (if e.logged_in then "true" else "false")
      ∷ "\0"
      ∷ (if e.pairing_active then "true" else "false")
      ∷ "\0"
      ∷ e.disconnect_reason
      ∷ "\0"
      ∷ e.error_message
      ∷ [])

  duplicate_key-observation_key : (e : LifecycleEvent P) → duplicate_key e ≡ observation_key e
  unfolding duplicate_key bool_key
  duplicate_key-observation_key e =
      rw (bool_text e.connected, bool_text e.logged_in, bool_text e.pairing_active) refl
    where
      bool_text : (b : Bool) → bool_key b ≡ (if b then "true" else "false")
      bool_text true = refl
      bool_text false = refl

module _ {P L : Type 0} where
  -- The ways in which a report can end: the calls that are started, and the registry behind it.
  pub data Notified (key : String) (now : Time) (e : LifecycleEvent P) (g : Registry L)
      : List (L × LifecycleEvent P) × Registry L → Type 0 where
    nameless :
        (is_blank e.instance_id || is_blank e.event_type) ≡ true → Notified key now e g ([], g)
    repeated :
        (is_blank e.instance_id || is_blank e.event_type) ≡ false
        → str_eq (trim_space e.event_type) "status_observed" ≡ true
        → 0 < or_else (g.last_seen key) 0
        → (reported now e).occurred_at < or_else (g.last_seen key) 0 + 15 * second
        → Notified key now e g ([], g)
    other :
        (is_blank e.instance_id || is_blank e.event_type) ≡ false
        → str_eq (trim_space e.event_type) "status_observed" ≡ false
        → Notified key now e g (map (λ l. (l, reported now e)) g.listeners, g)
    observed :
        (is_blank e.instance_id || is_blank e.event_type) ≡ false
        → str_eq (trim_space e.event_type) "status_observed" ≡ true
        → (0 < or_else (g.last_seen key) 0
            → or_else (g.last_seen key) 0 + 15 * second ≤ (reported now e).occurred_at)
        → Notified key now e g (
          map (λ l. (l, reported now e)) g.listeners,
          record g { last_seen = put key (reported now e).occurred_at g.last_seen },
        )

  notify-key :
      (now : Time) (e : LifecycleEvent P) (g : Registry L)
      → Notified (duplicate_key (reported now e)) now e g (notify_lifecycle_event now e g)
  unfolding notify_lifecycle_event should_drop_duplicate_lifecycle_event normalize
  notify-key now e g =
      let last = or_else (g.last_seen (duplicate_key (reported now e))) 0 in
      elim (Bool-cases (is_blank e.instance_id || is_blank e.event_type)) [
        | inl blank ↦ rw blank (nameless blank)
        | inr named ↦ elim (Bool-cases (str_eq (trim_space e.event_type) "status_observed")) [
          | inr o ↦ rw (named, o) (other named o)
          | inl o ↦
              elim (Bool-cases (
                not (is_zero_time last)
                && ltb ((reported now e).occurred_at - last)
                    lifecycle_status_observed_min_interval)) [
                      | inl near ↦
                          rw (named, o, near) (repeated named o (ground arith) (ground arith))
                      | inr far ↦ rw (named, o, far) (observed named o (λ z. ground arith))
                    ]
        ]
      ]

  -- Every report ends in one of four ways. One without an instance or a type starts no call. An
  -- observation of a status less than 15 seconds behind the last one that was let through with the
  -- same instance, status, flags and errors starts none. Any other event starts one call of each
  -- listener with the event, its texts without white space around them, and with the time of the
  -- report if it had none; where it is an observation of a status, its time is kept as the last one.
  pub notify-Notified :
      (now : Time) (e : LifecycleEvent P) (g : Registry L)
      → Notified (observation_key (reported now e)) now e g (notify_lifecycle_event now e g)
  notify-Notified now e g =
      subst (λ key. Notified key now e g (notify_lifecycle_event now e g))
        (duplicate_key-observation_key (reported now e)) (notify-key now e g)
