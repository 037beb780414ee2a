-- ===== src/RuntimeObs/Dedup.antt =====
-- Which lifecycle events the listeners are told of.
use fmxevolution_go.Base.{
  is_nil, ◌+◌, ◌-◌, ◌≤◌, ◌<◌, String, Bool, true, false, not, ◌&&◌, ◌||◌, ◌≡◌, refl, ap, ◌∙◌, ◌⊎◌,
  inl, inr, some, List, [], ◌∷◌, map, str_eq, eq_iff, eq_refl, ltb, if◌then◌else◌, Bool-cases, Time,
  GoMap, put, or_else, is_zero_time, is_blank, All, All-every, All-imp, arith,
}
use fmxevolution_go.RuntimeObs.{
  LifecycleEvent, Registry, lifecycle_status_observed_min_interval, duplicate_key, normalize,
  should_drop_duplicate_lifecycle_event, notify_lifecycle_event,
}

-- An observation of a status.
abbrev pub is_observed : {P : Type 0} → LifecycleEvent P → Bool
is_observed e = str_eq e.event_type "status_observed"

-- Where an observation is not dropped, the last one with its key is far enough behind.
abbrev pub NotBefore : {P : Type 0} → Time → LifecycleEvent P → Type 0
NotBefore last e = 0 < last → last + lifecycle_status_observed_min_interval ≤ e.occurred_at

module _ {P : Type 0} (e : LifecycleEvent P) (seen : GoMap Time) where
  -- An event is dropped, or is no observation, or is recorded as the last observation.
  abbrev Outcome : Type 0
  Outcome =
      (should_drop_duplicate_lifecycle_event e seen ≡ (true, seen))
      ⊎ ((should_drop_duplicate_lifecycle_event e seen ≡ (false, seen)) × (is_observed e ≡ false))
      ⊎ ((should_drop_duplicate_lifecycle_event e seen
            ≡ (false, put (duplicate_key e) e.occurred_at seen))
          × NotBefore (or_else (seen (duplicate_key e)) 0) e)

  should_drop-Outcome : Outcome
  unfolding should_drop_duplicate_lifecycle_event
  should_drop-Outcome = elim (Bool-cases (is_observed e)) [
    | inr other ↦ inr (inl (rw other, other))
    | inl observed ↦
        elim (Bool-cases (
          not (is_zero_time (or_else (seen (duplicate_key e)) 0))
          && ltb (e.occurred_at - or_else (seen (duplicate_key e)) 0)
              lifecycle_status_observed_min_interval)) [
                | inl near ↦ inl (rw (observed, near))
                | inr far ↦ inr (inr (rw (observed, far), λ z. ground arith))
              ]
  ]

-- What a recorded event does to the last observations.
abbrev Info : {P : Type 0} → LifecycleEvent P → GoMap Time → GoMap Time → Type 0
Info e seen seen' =
    ((seen' ≡ seen) × (is_observed e ≡ false))
    ⊎ ((seen' ≡ put (duplicate_key e) e.occurred_at seen)
        × NotBefore (or_else (seen (duplicate_key e)) 0) e)

-- An event of the program, with the time at which it is reported.
abbrev pub Report : Type 0 → Type 0
Report P = Time × LifecycleEvent P

module _ {P : Type 0} where
  -- Observations with one key keep the interval.
  abbrev pub Apart : LifecycleEvent P → LifecycleEvent P → Type 0
  Apart a b =
      is_observed a ≡ true
      → is_observed b ≡ true
      → str_eq (duplicate_key a) (duplicate_key b) ≡ true
      → a.occurred_at + lifecycle_status_observed_min_interval ≤ b.occurred_at

  abbrev pub Spaced : List (LifecycleEvent P) → Type 0
  Spaced [] = Unit
  Spaced (a ∷ es) = All (Apart a) es × Spaced es

  abbrev Later : String → Time → LifecycleEvent P → Type 0
  Later key last b =
      is_observed b ≡ true
      → str_eq key (duplicate_key b) ≡ true
      → last + lifecycle_status_observed_min_interval ≤ b.occurred_at

  -- A report that is made behind the zero time.
  abbrev pub IsDated : Report P → Type 0
  IsDated (now, e) = 0 < now

  normalize-dated :
      (now : Time) (e : LifecycleEvent P) → 0 < now → 0 < (normalize now e).occurred_at
  unfolding normalize
  normalize-dated now e h = ground arith

module _ {P L : Type 0} where
  abbrev Called : LifecycleEvent P → Registry L → List (L × LifecycleEvent P) × Registry L → Type 0
  Called e g (calls, g') =
      ((calls ≡ []) × (g' ≡ g))
      ⊎ ((seen : GoMap Time) × Info e g.last_seen seen
          × (calls ≡ map (λ l. (l, e)) g.listeners)
          × (g' ≡ record g { last_seen = seen }))

  notify-Called :
      (now : Time) (e : LifecycleEvent P) (g : Registry L)
      → Called (normalize now e) g (notify_lifecycle_event now e g)
  unfolding notify_lifecycle_event
  notify-Called now e g = elim (Bool-cases (is_blank e.instance_id || is_blank e.event_type)) [
    | inl blank ↦ inl (rw blank, rw blank)
    | inr named ↦ elim (should_drop-Outcome (normalize now e) g.last_seen) [
      | inl dropped ↦ inl (rw (named, dropped), rw (named, dropped))
      | inr (inl (kept, other)) ↦
          inr (g.last_seen, inl (refl, other), rw (named, kept), rw (named, kept))
      | inr (inr (kept, far)) ↦ inr (
        put (duplicate_key (normalize now e)) (normalize now e).occurred_at g.last_seen,
        inr (refl, far),
        rw (named, kept),
        rw (named, kept),
      )
    ]
  ]

  -- The events of a sequence of reports that listeners are called for, as they are told.
  pub told : List (Report P) → Registry L → List (LifecycleEvent P)
  told [] g = []
  told ((now, e) ∷ rs) g =
      let (calls, g') = notify_lifecycle_event now e g in
      let rest = told rs g' in if is_nil calls then rest else normalize now e ∷ rest

  told-cases :
      (Q : List (LifecycleEvent P) → Type 0) (now : Time) (e : LifecycleEvent P)
      (rs : List (Report P)) (g : Registry L)
      → Q (told rs g)
      → ((seen : GoMap Time)
          → Info (normalize now e) g.last_seen seen
          → Q (told rs (record g { last_seen = seen }))
            × Q (normalize now e ∷ told rs (record g { last_seen = seen })))
      → Q (told ((now, e) ∷ rs) g)
  unfolding told
  told-cases Q now e rs g f k = go (notify_lifecycle_event now e g) (notify-Called now e g)
    where
      go :
          (c : List (L × LifecycleEvent P) × Registry L)
          → Called (normalize now e) g c
          → Q (if is_nil c.0 then told rs c.1 else normalize now e ∷ told rs c.1)
      go (calls, g') (inl (silent, same)) = rw (silent, same) f
      go (calls, g') (inr (seen, i, c, same)) = elim (Bool-cases (is_nil calls)) [
        | inl quiet ↦ rw (quiet, same) (k seen i).0
        | inr loud ↦ rw (loud, same) (k seen i).1
      ]

  -- What a sequence keeps, whatever the last observations are.
  abbrev Keeps : List (Report P) → Registry L → Type 0
  Keeps rs g =
      (seen : GoMap Time) (key : String) (last : Time)
      → seen key ≡ some last
      → 0 < last
      → All (Later key last) (told rs (record g { last_seen = seen }))

  told-step :
      (rs : List (Report P)) (g : Registry L) (key : String) (last : Time) (e : LifecycleEvent P)
      (seen : GoMap Time)
      → Keeps rs g
      → g.last_seen key ≡ some last
      → 0 < last
      → 0 < e.occurred_at
      → Info e g.last_seen seen
      → All (Later key last) (told rs (record g { last_seen = seen })) × Later key last e
  told-step rs g key last e seen again h z d (inl (same, other)) =
      (again seen key last (rw same h) z, (λ o. absurd (ground arith)))
  told-step rs g key last e seen again h z d (inr (kept, far)) =
      elim (Bool-cases (str_eq (duplicate_key e) key)) [
        | inl own ↦
            let at : g.last_seen (duplicate_key e) ≡ some last =
              ap g.last_seen ((eq_iff (duplicate_key e) key).0 own) ∙ h in
            let gap : last + lifecycle_status_observed_min_interval ≤ e.occurred_at =
              ground (arith, far, at) in
            (
              All-imp (Later key e.occurred_at) (Later key last) (λ b f o k. omega (arith, f o k)) _
                  (again seen key e.occurred_at (rw (kept, own)) d),
              (λ o k. gap),
            )
        | inr other ↦ (
          again seen key last (rw (kept, other) h) z,
          (λ o k. absurd (ground (arith, eq_iff key (duplicate_key e), eq_refl key))),
        )
      ]

  told-Later : (rs : List (Report P)) (g : Registry L) → All IsDated rs → Keeps rs g
  told-Later [] g d seen key last h z = unfold told in tt
  told-Later ((now, e) ∷ rs) g d seen key last h z =
      told-cases (All (Later key last)) now e rs (record g { last_seen = seen })
        (told-Later rs g d.1 seen key last h z)
        (λ seen' i.
          let (rest, own) =
            told-step rs (record g { last_seen = seen }) key last (normalize now e) seen'
              (told-Later rs g d.1) h z (normalize-dated now e d.0) i in
          (rest, (own, rest)))

  -- Of the observations of a status that the listeners are told of, in any sequence of reports made
  -- behind the zero time, those with one key (the instance, the state and the errors) keep a
  -- distance of at least 15 seconds from all before them.
  pub told-Spaced : (rs : List (Report P)) (g : Registry L) → All IsDated rs → Spaced (told rs g)
  told-Spaced [] g d = unfold told in tt
  told-Spaced ((now, e) ∷ rs) g d = told-cases Spaced now e rs g (told-Spaced rs g d.1) (λ seen i.
      let rest = told-Spaced rs (record g { last_seen = seen }) d.1 in
      (rest, (apart seen i (told-Later rs g d.1), rest)))
    where
      apart :
          (seen : GoMap Time)
          → Info (normalize now e) g.last_seen seen
          → Keeps rs g
          → All (Apart (normalize now e)) (told rs (record g { last_seen = seen }))
      apart seen (inl (same, other)) keeps = All-every _ (λ b o. absurd (ground arith)) _
      apart seen (inr (kept, far)) keeps =
          All-imp (Later (duplicate_key (normalize now e)) (normalize now e).occurred_at) _
            (λ b f o p k. f p k) _
            (keeps seen (duplicate_key (normalize now e)) (normalize now e).occurred_at
              (rw (kept, eq_refl)) (normalize-dated now e d.0))
