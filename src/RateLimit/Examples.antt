-- ===== src/RateLimit/Examples.antt =====
-- The theorems on the rate limiter at concrete inputs.
use Prim.Native.Nat.{min}
use fmxevolution_go.Base.{ℕ, suc, String, ◌≡◌, refl, List, [], ◌∷◌, empty_map, pos, arith, minute}
use fmxevolution_go.RateLimit.{Request, no_body, allow, RateLimitPolicy}
use fmxevolution_go.RateLimit.Window.{
  Call, run, allowed_for, calls_for, allowed_for-window, allow_isolated,
}

abbrev call : String → ℕ → Call
call key now = record { key = key; limit = pos 2; window = minute; now = now }

abbrev later_calls : List Call
later_calls = call "a" 11 ∷ call "b" 12 ∷ call "a" 13 ∷ []

allowed_for-window_example :
    allowed_for "a" (call "a" 10 ∷ later_calls) empty_map ≡ min (suc (calls_for "a" later_calls)) 2
allowed_for-window_example =
    allowed_for-window (call "a" 10) later_calls empty_map refl (omega arith) refl
      ((omega arith, λ _. refl), ((omega arith, λ _. refl), ((omega arith, λ _. refl), tt)))

allow_isolated_example :
    (allow "a" (pos 2) minute 20 (run (call "b" 12 ∷ call "c" 13 ∷ []) empty_map)).0
    ≡ (allow "a" (pos 2) minute 20 empty_map).0
allow_isolated_example =
    allow_isolated "a" (pos 2) minute 20 (call "b" 12 ∷ call "c" 13 ∷ []) empty_map
      ((refl, omega arith), ((refl, omega arith), tt))

abbrev policy : RateLimitPolicy
policy = record { name = "messages_per_minute"; limit = pos 2; window = minute }

abbrev request : Request
request = record { tenant_id = "t1"; client_ip = "10.0.0.1"; places = " i1 " ∷ []; body = no_body }
