-- ===== src/Broadcast/Worker/Wait.antt =====
-- How the wait for a slot of an instance ends.
use fmxevolution_go.Base.{
  ℕ, zero, suc, ◌+◌, ◌≤◌, ◌<◌, String, ◌≡◌, ◌⊎◌, some, none, or_else, ℤ, Time, GoMap, put,
}
use fmxevolution_go.Base.Effect.{Out, ok, err}
use fmxevolution_go.Domain.{GoError, plain_error}
use fmxevolution_go.Broadcast.Env.{Env, World}
use fmxevolution_go.Broadcast.Worker.{interval_for_rate}

module _ (env : Env) (inst : String) (rate : ℤ) where
  -- The map as it is seen in a round that starts at a call.
  abbrev pub seen_at : ℕ → GoMap Time → GoMap Time
  seen_at t slots = env.other_slots (suc (suc t)) slots

  -- For so many rounds, of three calls each, the context is not cancelled, and the slot is not free
  -- when the clock is read.
  pub Busy : ℕ → ℕ → GoMap Time → Type 0
  Busy zero t slots = Unit {0}
  Busy (suc n) t slots =
      (env.cancelled t ≡ none)
      × (env.clock (suc t) < or_else (seen_at t slots inst) 0)
      × (env.cancelled (suc (suc t)) ≡ none)
      × Busy n (suc (suc (suc t))) (seen_at t slots)

  -- The slot was free when the clock was read, and the next one is the interval later.
  abbrev pub Granted : World → Out GoError (Unit {0}) → World → Type 0
  Granted w o t =
      (o ≡ ok tt)
      × ((n : ℕ) × (slots : GoMap Time) × (or_else (slots inst) 0 ≤ env.clock n)
          × (t ≡ record w {
            tick = t.tick;
            next_instance_at = put inst (env.clock n + interval_for_rate rate) slots;
          }))

  abbrev pub Cancelled : World → Out GoError (Unit {0}) → World → Type 0
  Cancelled w o t =
      ((n : ℕ) × (x : String) × (env.cancelled n ≡ some x) × (o ≡ err (plain_error x)))
      × (t ≡ record w { tick = t.tick; next_instance_at = t.next_instance_at })

  abbrev pub Waited : ℕ → World → Out GoError (Unit {0}) × World → Type 0
  Waited fuel w (o, t) = Granted w o t ⊎ Cancelled w o t ⊎ Busy fuel w.tick w.next_instance_at

  abbrev next_at : World → Time
  next_at w = or_else (seen_at w.tick w.next_instance_at inst) 0

  -- The world behind a round that does not get the slot.
  abbrev behind : World → World
  behind w = record w {
    tick = suc (suc (suc w.tick));
    next_instance_at = seen_at w.tick w.next_instance_at;
  }
