-- ===== src/ChatSearch/Searches.antt =====
-- What a sequence of searches finds in the cache, and how often it asks the bridge.
use fmxevolution_go.Base.{
  ℕ, ◌+◌, ◌≤◌, ◌<◌, String, true, false, ◌≡◌, refl, ◌∙◌, some, List, [], ◌∷◌, eq_refl, Bool-cases,
  Option-cases, inl, inr, ◌⊎◌, Time, put, All, All-imp, arith, if◌then◌else◌,
}
use fmxevolution_go.Base.Effect.{Out, ok, err}
use fmxevolution_go.Domain.{GoError}
use fmxevolution_go.ChatSearch.{
  Result, Cache, fresh, stale, is_recent, throttled, begin_live_attempt, cleanup_expired, store,
  Bridge, unavailable, other_runtime, answer, Times, Answer, or_stale, ask_bridge, live_search,
  search_chats,
}

module _ {A : Type 0} (P : Answer A → Type 0) (c : Cache A) (key : String) where
  or_stale-cases :
      (now : Time) (reason : String) (e : GoError)
      → ((x : Out GoError (Result A)) → P (x, c, true))
      → P (or_stale c key now reason e)
  unfolding or_stale
  or_stale-cases now reason e f = elim (Option-cases (stale c key now reason)) [
    | inl gone ↦ rw (gone, or_stale) (f _)
    | inr (r, there) ↦ rw (there, or_stale) (f _)
  ]

  -- The bridge fails, and the cache stays; or its answer is stored.
  pub ask_bridge-cases :
      (now : Time) (b : Bridge A)
      → ((x : Out GoError (Result A)) → P (x, c, true))
      → ((items : List A)
          → b ≡ answer (ok items)
          → P (ok (store c key items now).0, (store c key items now).1, true))
      → P (ask_bridge c key now b)
  unfolding ask_bridge
  ask_bridge-cases now (unavailable e) f g = or_stale-cases now _ _ f
  ask_bridge-cases now other_runtime f g = or_stale-cases now _ _ f
  ask_bridge-cases now (answer (err e)) f g = or_stale-cases now _ _ f
  ask_bridge-cases now (answer (ok items)) f g = g items refl

abbrev pub attempted : {A : Type 0} → Cache A → String → Time → Cache A
attempted c key now = record c { last_live_attempt = put key now c.last_live_attempt }

module _ {A : Type 0} (P : Answer A → Type 0) (c : Cache A) (key : String) (t : Times)
    (b : Bridge A) where
  -- A search leaves the cache alone and asks nobody, or it makes an attempt that is due.
  pub search_chats-cases :
      ((x : Out GoError (Result A)) → P (x, c, false))
      → (is_recent c key t.start ≡ false → P (ask_bridge (attempted c key t.start) key t.finish b))
      → P (search_chats c key t b)
  unfolding search_chats live_search begin_live_attempt
  search_chats-cases f g = elim (Option-cases (fresh c key t.look)) [
    | inr (r, there) ↦ rw (there, search_chats) (f (ok r))
    | inl gone ↦ elim (Option-cases (throttled c key t.look_again)) [
      | inr (r, there) ↦ rw (gone, search_chats, there) (f (ok r))
      | inl gone' ↦ elim (Bool-cases (is_recent c key t.start)) [
        | inl recent ↦ rw (gone, search_chats, gone', live_search, recent, begin_live_attempt) (f _)
        | inr due ↦ rw (gone, search_chats, gone', live_search, due, begin_live_attempt) (g due)
      ]
    ]
  ]

-- What a search that starts and ends at the given times does to the last attempt.
abbrev Step : {A : Type 0} → Cache A → String → Time → Answer A → Type 0
Step c key start (x, c', asked) =
    ((asked ≡ false) × (c' ≡ c))
    ⊎ ((asked ≡ true)
        × (is_recent c key start ≡ false)
        × (c'.live_throttle ≡ c.live_throttle)
        × ((l : Time) × (c'.last_live_attempt key ≡ some l) × (start ≤ l)))

search_chats-Step :
    {A : Type 0} (c : Cache A) (key : String) (t : Times) (b : Bridge A)
    → t.start ≤ t.finish
    → Step c key t.start (search_chats c key t b)
unfolding store cleanup_expired
search_chats-Step c key t b h =
    search_chats-cases (Step c key t.start) c key t b (λ x. inl (refl, refl))
      λ due.
        ask_bridge-cases (Step c key t.start) (attempted c key t.start) key t.finish b
          (λ x. inr (refl, due, refl, (t.start, rw eq_refl, omega arith)))
          (λ items e. inr (refl, due, refl, (t.finish, rw eq_refl, h)))

abbrev pub Spaced : ℕ → List Time → Type 0
Spaced d [] = Unit
Spaced d (s ∷ ss) = All (λ u. s + d ≤ u) ss × Spaced d ss

-- A search under the key, at its times and with what the bridge offers.
abbrev pub Query : Type 0 → Type 0
Query A = Times × Bridge A

-- The starts of the searches of a sequence that ask the bridge.
pub asks : {A : Type 0} → String → List (Query A) → Cache A → List Time
asks key [] c = []
asks key ((t, b) ∷ qs) c =
    let (x, c', asked) = search_chats c key t b in
    let rest = asks key qs c' in if asked then t.start ∷ rest else rest

-- A search that takes place behind the zero time, and ends no earlier than it starts.
abbrev pub Ordered : {A : Type 0} → Query A → Type 0
Ordered (t, b) = (0 < t.start) × (t.start ≤ t.finish)

due-later :
    {A : Type 0} (c : Cache A) (key : String) (now l : Time)
    → is_recent c key now ≡ false
    → c.last_live_attempt key ≡ some l
    → 0 < l
    → 0 < c.live_throttle
    → l + c.live_throttle ≤ now
unfolding is_recent
due-later c key now l d h p q = ground arith

module _ {A : Type 0} (key : String) where
  asks-cases :
      (P : List Time → Type 0) (t : Times) (b : Bridge A) (qs : List (Query A)) (c : Cache A)
      → t.start ≤ t.finish
      → P (asks key qs c)
      → ((c' : Cache A) (l : Time)
          → is_recent c key t.start ≡ false
          → c'.live_throttle ≡ c.live_throttle
          → c'.last_live_attempt key ≡ some l
          → t.start ≤ l
          → P (t.start ∷ asks key qs c'))
      → P (asks key ((t, b) ∷ qs) c)
  unfolding asks
  asks-cases P t b qs c h f g = go (search_chats c key t b) (search_chats-Step c key t b h)
    where
      go :
          (a : Answer A)
          → Step c key t.start a
          → P (if a.2 then t.start ∷ asks key qs a.1 else asks key qs a.1)
      go (x, c', asked) (inl (idle, same)) = rw (idle, same) f
      go (x, c', asked) (inr (asked_it, due, d, (l, e, k))) = rw asked_it (g c' l due d e k)

  asks-after :
      (qs : List (Query A)) (c : Cache A) (d : ℕ) (l : Time)
      → All Ordered qs
      → c.live_throttle ≡ d
      → 0 < d
      → c.last_live_attempt key ≡ some l
      → 0 < l
      → All (λ u. l + d ≤ u) (asks key qs c)
  asks-after [] c d l o th p e z = unfold asks in tt
  asks-after ((t, b) ∷ qs) c d l o th p e z =
      asks-cases (All (λ u. l + d ≤ u)) t b qs c o.0.1 (asks-after qs c d l o.1 th p e z)
        (λ c' m due th' e' k.
          let far : l + d ≤ t.start =
            omega (arith, due-later c key t.start l due e z (omega arith)) in
          (
            far,
            All-imp (λ u. m + d ≤ u) (λ u. l + d ≤ u) (λ u h. omega arith) _
                (asks-after qs c' d m o.1 (th' ∙ th) p e' (omega arith)),
          ))

  -- Of the searches of a sequence under one key that ask the bridge, each starts at least the
  -- throttle behind all before it, where the throttle is positive, no search starts at the zero
  -- time, and each ends no earlier than it starts.
  pub asks-Spaced :
      (qs : List (Query A)) (c : Cache A)
      → All Ordered qs
      → 0 < c.live_throttle
      → Spaced c.live_throttle (asks key qs c)
  asks-Spaced qs c o p = spaced qs c c.live_throttle o refl p
    where
      spaced :
          (qs : List (Query A)) (c : Cache A) (d : ℕ)
          → All Ordered qs
          → c.live_throttle ≡ d
          → 0 < d
          → Spaced d (asks key qs c)
      spaced [] c d o th p = unfold asks in tt
      spaced ((t, b) ∷ qs) c d o th p =
          asks-cases (Spaced d) t b qs c o.0.1 (spaced qs c d o.1 th p) (λ c' m due th' e' k. (
            All-imp (λ u. m + d ≤ u) (λ u. t.start + d ≤ u) (λ u h. omega arith) _
                (asks-after qs c' d m o.1 (th' ∙ th) p e' (omega arith)),
            spaced qs c' d o.1 (th' ∙ th) p,
          ))
