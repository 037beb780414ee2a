-- ===== src/Webhook/Backoff.antt =====
-- How long a failed delivery waits (`backoffFor` of internal/webhook/service.go).
use native.Mathlib.Nat.{pow-le-pow_right}
use fmxevolution_go.Base.{
  ℕ, ◌-◌, ◌*◌, ◌^◌, ◌≤◌, ◌<◌, ◌≡◌, ltb, if◌then◌else◌, pos, nonneg_part, to_int64, to_int64-small,
  second, minute, arith,
}
use fmxevolution_go.Webhook.Service.{backoff_for}

shift_fits : (n : ℕ) → n ≤ 28 → 30 * second * 2 ^ n < 2 ^ 63
shift_fits n h = omega (arith, pow-le-pow_right {n = 2} (omega arith) {i = n} {j = 28} h)

wait_of :
    (d : ℕ)
    → d < 2 ^ 63
    → (if ltb (30 * minute) (nonneg_part (to_int64 d)) then pos (30 * minute) else to_int64 d)
      ≡ (if ltb (30 * minute) d then pos (30 * minute) else pos d)
wait_of d h = rw (to_int64-small d h)

-- Behind the first 29 attempts a delivery waits 30 seconds, twice as long behind each attempt, and
-- no longer than 30 minutes.
pub backoff_for_lem :
    (n : ℕ)
    → 1 ≤ n
    → n ≤ 29
    → backoff_for n ≡ (
        if ltb (30 * minute) (30 * second * 2 ^ (n - 1))
        then pos (30 * minute)
        else pos (30 * second * 2 ^ (n - 1)))
unfolding backoff_for
backoff_for_lem n positive h = wait_of _ (shift_fits (n - 1) (omega arith))
