-- ===== src/RateLimit/Window.antt =====
-- How many calls a window lets through, and that other keys make no difference.
use Prim.Native.Nat.{min}
use fmxevolution_go.Base.{
  ℕ, suc, ◌+◌, ◌-◌, ◌≤◌, ◌<◌, String, Bool, true, false, ◌&&◌, ◌≡◌, refl, ap, sym, ◌∙◌, none, some,
  List, [], ◌∷◌, str_eq, eq_refl, eq_iff, leb, if◌then◌else◌, Bool-cases, Option-cases, inl, inr,
  Time, ℤ, is_pos, nonneg_part, arith, All, count,
}
use fmxevolution_go.RateLimit.{Entry, Store, allow}

-- A call of `Allow` under any key, with any limit and window.
pub record Call : Type 0 where
  pub key : String
  pub limit : ℤ
  pub window : ℕ
  pub now : Time

pub run : List Call → Store → Store
run [] m = m
run (c ∷ cs) m = run cs (allow c.key c.limit c.window c.now m).1

-- How many calls for a key a sequence of calls lets through.
pub allowed_for : String → List Call → Store → ℕ
allowed_for key [] m = 0
allowed_for key (c ∷ cs) m =
    let (d, m') = allow c.key c.limit c.window c.now m in
    let rest = allowed_for key cs m' in if str_eq c.key key && d.allowed then suc rest else rest

-- The entry of a key whose window is open at the time of a call under another key stays.
allow_other :
    (c : Call) (key : String) (m : Store) (e : Entry)
    → str_eq c.key key ≡ false
    → m key ≡ some e
    → c.now ≤ e.window_end
    → (allow c.key c.limit c.window c.now m).1 key ≡ some e
unfolding allow
allow_other c key m e o h t = ground arith

-- A call under the key itself counts up.
allow_self :
    (c : Call) (m : Store) (e : Entry)
    → is_pos c.limit ≡ true
    → m c.key ≡ some e
    → 0 < e.window_end
    → c.now ≤ e.window_end
    → ((allow c.key c.limit c.window c.now m).1 c.key ≡ some (record e { count = suc e.count }))
      × ((allow c.key c.limit c.window c.now m).0.allowed ≡ leb (suc e.count) (nonneg_part c.limit))
unfolding allow
allow_self c m e p h z t = ground (arith, eq_refl c.key)

-- The calls under a key.
abbrev pub calls_for : String → List Call → ℕ
calls_for key = count (λ c. str_eq c.key key)

-- A call before the end of a window, with the key's limit if it is under the key.
abbrev pub Within : String → ℤ → Time → Call → Type 0
Within key limit end c = (c.now ≤ end) × (str_eq c.key key ≡ true → c.limit ≡ limit)

module _ (key : String) (limit : ℤ) (end : Time) (p : is_pos limit ≡ true) (z : 0 < end) where
  step_other :
      (c : Call) (cs : List Call) (m : Store)
      → str_eq c.key key ≡ false
      → allowed_for key (c ∷ cs) m ≡ allowed_for key cs (allow c.key c.limit c.window c.now m).1
  unfolding allowed_for
  step_other c cs m o = rw o

  step_self :
      (c : Call) (cs : List Call) (m : Store) (d : Bool)
      → str_eq c.key key ≡ true
      → (allow c.key c.limit c.window c.now m).0.allowed ≡ d
      → allowed_for key (c ∷ cs) m ≡ (
          let rest = allowed_for key cs (allow c.key c.limit c.window c.now m).1 in
          if d then suc rest else rest)
  unfolding allowed_for
  step_self c cs m d o h = rw (o, h)

  allowed_for-min :
      (cs : List Call) (m : Store) (e : Entry)
      → m key ≡ some e
      → e.window_end ≡ end
      → All (Within key limit end) cs
      → allowed_for key cs m ≡ min (calls_for key cs) (nonneg_part limit - e.count)
  allowed_for-min [] m e h w a = unfold allowed_for in omega arith
  allowed_for-min (c ∷ cs) m e h w a = elim (Bool-cases (str_eq c.key key)) [
    | inl same ↦
        let k : c.key ≡ key = (eq_iff c.key key).0 same in
        let l : c.limit ≡ limit = a.0.1 same in
        let m' : Store = (allow c.key c.limit c.window c.now m).1 in
        let (counted, decided) =
          allow_self c m e (ap is_pos l ∙ p) (ap m k ∙ h) (rw w z) (rw w a.0.0) in
        step_self c cs m _ same decided
        ∙ ground (
          arith,
          ap nonneg_part l,
          allowed_for-min cs m' (record e { count = suc e.count }) (ap m' (sym k) ∙ counted) w a.1,
        )
    | inr other ↦
        let m' : Store = (allow c.key c.limit c.window c.now m).1 in
        step_other c cs m other
        ∙ ground (arith, allowed_for-min cs m' e (allow_other c key m e other h (rw w a.0.0)) w a.1)
  ]

-- The first call of a window, where the key has no entry.
allow_first :
    (key : String) (limit : ℤ) (window : ℕ) (now : Time) (m : Store)
    → is_pos limit ≡ true
    → m key ≡ none
    → ((allow key limit window now m).1 key
        ≡ some (record { count = 1; window_end = now + window }))
      × ((allow key limit window now m).0.allowed ≡ true)
unfolding allow
allow_first key limit window now m p h = ground (arith, eq_refl key)

-- A call under a key that has no entry, with a positive limit and window, opens a window. Of that
-- call and the calls that follow it up to the end of the window, under this key with this limit and
-- under other keys in any order, exactly as many as the limit are let through under this key, or all
-- of them if they are fewer.
pub allowed_for-window :
    (c : Call) (cs : List Call) (m : Store)
    → is_pos c.limit ≡ true
    → 0 < c.window
    → m c.key ≡ none
    → All (Within c.key c.limit (c.now + c.window)) cs
    → allowed_for c.key (c ∷ cs) m ≡ min (suc (calls_for c.key cs)) (nonneg_part c.limit)
allowed_for-window c cs m p w h a =
    let (made, let_through) = allow_first c.key c.limit c.window c.now m p h in
    let m' : Store = (allow c.key c.limit c.window c.now m).1 in
    step_self c.key c.limit (c.now + c.window) p (omega arith) c cs m true (eq_refl c.key)
      let_through
    ∙ ground (
      arith,
      allowed_for-min c.key c.limit (c.now + c.window) p (omega arith) cs m'
          (record { count = 1; window_end = c.now + c.window }) made refl a,
    )

-- One call under another key, made no later, changes no decision.
allow_isolated_step :
    (key : String) (limit : ℤ) (window : ℕ) (now : Time) (c : Call) (m : Store)
    → str_eq c.key key ≡ false
    → c.now ≤ now
    → (allow key limit window now (allow c.key c.limit c.window c.now m).1).0
      ≡ (allow key limit window now m).0
unfolding allow
allow_isolated_step key limit window now c m o t = elim (Option-cases (m key)) [
  | inl absent ↦ ground arith
  | inr (e, there) ↦ ground arith
]

-- What the limiter decides under a key does not depend on calls under other keys, however many, that
-- are made no later: one tenant or instance cannot use up the limit of another.
pub allow_isolated :
    (key : String) (limit : ℤ) (window : ℕ) (now : Time) (cs : List Call) (m : Store)
    → All (λ c. (str_eq c.key key ≡ false) × (c.now ≤ now)) cs
    → (allow key limit window now (run cs m)).0 ≡ (allow key limit window now m).0
unfolding run
allow_isolated key limit window now [] m a = refl
allow_isolated key limit window now (c ∷ cs) m a =
    allow_isolated key limit window now cs (allow c.key c.limit c.window c.now m).1 a.1
    ∙ allow_isolated_step key limit window now c m a.0.0 a.0.1
