-- ===== src/Broadcast/Worker/Slots.antt =====
-- The rate limit per instance: what `waitForInstanceSlot` lets through, whatever workers ask in
-- whatever order.
use fmxevolution_go.Base.{
  ℕ, ◌+◌, ◌-◌, or_else, is_zero_time, after, ap, ◌⊎◌, ◌≤◌, ◌<◌, String, not, ◌||◌, ◌≡◌, none, some,
  List, [], ◌∷◌, str_eq, eq_iff, eq_refl, Bool-cases, inl, inr, ℤ, pos, negsuc, Time, hour, arith,
  GoMap, put, All, All-imp,
}
use fmxevolution_go.Broadcast.Worker.{interval_for_rate, take_slot}

-- One run of the section under the mutex.
pub record SlotRequest : Type 0 where
  pub instance_id : String
  pub rate : ℤ
  pub now : Time

-- The requests that are let through, of a sequence of requests by any workers.
pub grants : List SlotRequest → GoMap Time → List SlotRequest
grants [] slots = []
grants (r ∷ rs) slots =
    let (wait, slots') = take_slot r.instance_id r.rate r.now slots in
    let rest = grants rs slots' in elim wait [ none ↦ r ∷ rest | some d ↦ rest ]

-- A later request of the same instance keeps the distance that the earlier one's rate asks for.
abbrev pub Apart : SlotRequest → SlotRequest → Type 0
Apart r s = r.instance_id ≡ s.instance_id → r.now + interval_for_rate r.rate ≤ s.now

abbrev pub Spaced : List SlotRequest → Type 0
Spaced [] = Unit
Spaced (r ∷ rs) = All (Apart r) rs × Spaced rs

-- The interval is never zero, and never longer than an hour.
pub interval_for_rate_bounds :
    (rate : ℤ) → (0 < interval_for_rate rate) × (interval_for_rate rate ≤ hour)
unfolding interval_for_rate
interval_for_rate_bounds (pos n) = ground arith
interval_for_rate_bounds (negsuc n) = ground arith

abbrev NotBefore : String → Time → SlotRequest → Type 0
NotBefore inst next s = inst ≡ s.instance_id → next ≤ s.now

-- A request is let through, and sets the next time; or nothing changes.
abbrev Outcome : SlotRequest → GoMap Time → Type 0
Outcome r slots =
    (take_slot r.instance_id r.rate r.now slots
        ≡ (none, put r.instance_id (r.now + interval_for_rate r.rate) slots))
      × (or_else (slots r.instance_id) 0 ≤ r.now)
    ⊎ ((d : ℕ) × (take_slot r.instance_id r.rate r.now slots ≡ (some d, slots)))

take_slot-Outcome : (r : SlotRequest) (slots : GoMap Time) → Outcome r slots
unfolding take_slot
take_slot-Outcome r slots =
    elim (Bool-cases (
      is_zero_time (or_else (slots r.instance_id) 0)
      || not (after (or_else (slots r.instance_id) 0) r.now))) [
        | inl free ↦ inl (rw free, ground arith)
        | inr busy ↦ inr (or_else (slots r.instance_id) 0 - r.now, rw busy)
      ]

grants_granted :
    (r : SlotRequest) (rs : List SlotRequest) (slots slots' : GoMap Time)
    → take_slot r.instance_id r.rate r.now slots ≡ (none, slots')
    → grants (r ∷ rs) slots ≡ r ∷ grants rs slots'
unfolding grants
grants_granted r rs slots slots' e = ground arith

grants_refused :
    (r : SlotRequest) (rs : List SlotRequest) (slots : GoMap Time) (d : ℕ)
    → take_slot r.instance_id r.rate r.now slots ≡ (some d, slots)
    → grants (r ∷ rs) slots ≡ grants rs slots
unfolding grants
grants_refused r rs slots d e = ground arith

grants-after :
    (rs : List SlotRequest) (slots : GoMap Time) (inst : String) (next : Time)
    → slots inst ≡ some next
    → All (NotBefore inst next) (grants rs slots)
grants-after [] slots inst next h = unfold grants in tt
grants-after (r ∷ rs) slots inst next h = elim (take_slot-Outcome r slots) [
  | inl (e, fits) ↦
      let slots' : GoMap Time = put r.instance_id (r.now + interval_for_rate r.rate) slots in
      rw (grants_granted r rs slots slots' e) (
        (λ same. ground (arith, ap slots same)),
        elim (Bool-cases (str_eq r.instance_id inst)) [
          | inl same ↦
              All-imp (NotBefore inst (r.now + interval_for_rate r.rate)) _
                (λ s f i. ground (arith, f i, ap slots ((eq_iff r.instance_id inst).0 same))) _
                (grants-after rs slots' inst _ (ground arith))
          | inr other ↦ grants-after rs slots' inst next (ground arith)
        ],
      )
  | inr (d, e) ↦ rw (grants_refused r rs slots d e) (grants-after rs slots inst next h)
]

-- Of the requests that are let through, in any sequence of requests for any instances, each is at
-- least the interval of its predecessors of the same instance behind them: a request at `t` with a
-- given rate keeps every later one of that instance away until `t` plus the interval of the rate.
pub grants-Spaced : (rs : List SlotRequest) (slots : GoMap Time) → Spaced (grants rs slots)
grants-Spaced [] slots = unfold grants in tt
grants-Spaced (r ∷ rs) slots = elim (take_slot-Outcome r slots) [
  | inl (e, fits) ↦
      let slots' : GoMap Time = put r.instance_id (r.now + interval_for_rate r.rate) slots in
      rw (grants_granted r rs slots slots' e) (
        grants-after rs slots' r.instance_id (r.now + interval_for_rate r.rate) (rw eq_refl),
        grants-Spaced rs slots',
      )
  | inr (d, e) ↦ rw (grants_refused r rs slots d e) (grants-Spaced rs slots)
]
