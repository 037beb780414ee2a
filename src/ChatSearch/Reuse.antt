-- ===== src/ChatSearch/Reuse.antt =====
-- That what a search has fetched answers later ones.
use fmxevolution_go.Base.{
  ◌+◌, ◌≤◌, String, Bool, false, ◌≡◌, refl, some, List, [], ◌∷◌, str_eq, eq_refl, Time, All, arith,
}
use fmxevolution_go.Base.Effect.{ok}
use fmxevolution_go.ChatSearch.{
  Result, Entry, Cache, fresh, cleanup_expired, new_entry, store, result_from_entry, Bridge, Times,
  Answer, search_chats,
}
use fmxevolution_go.ChatSearch.Searches.{ask_bridge-cases, search_chats-cases, attempted}

-- A search under any key.
pub record Search (A : Type 0) : Type 0 where
  pub key : String
  pub times : Times
  pub bridge : Bridge A

-- The cache behind a sequence of searches.
pub after_all : {A : Type 0} → List (Search A) → Cache A → Cache A
after_all [] c = c
after_all (q ∷ qs) c = after_all qs (search_chats c q.key q.times q.bridge).1

module _ {A : Type 0} (key : String) (e : Entry A) where
  -- The cache holds the entry under the key.
  abbrev Holds : Answer A → Type 0
  Holds (x, c, asked) = c.entries key ≡ some e

  store-Holds :
      (c : Cache A) (other : String) (items : List A) (now : Time)
      → str_eq other key ≡ false
      → c.entries key ≡ some e
      → now ≤ e.stale_until
      → (store c other items now).1.entries key ≡ some e
  unfolding store cleanup_expired
  store-Holds c other items now o h t = ground arith

  search_chats-Holds :
      (c : Cache A) (q : Search A)
      → str_eq q.key key ≡ false
      → c.entries key ≡ some e
      → q.times.finish ≤ e.stale_until
      → Holds (search_chats c q.key q.times q.bridge)
  search_chats-Holds c q o h t =
      search_chats-cases Holds c q.key q.times q.bridge (λ _. h)
        λ _.
          ask_bridge-cases Holds (attempted c q.key q.times.start) q.key q.times.finish q.bridge
            (λ _. h)
            (λ items _.
              store-Holds (attempted c q.key q.times.start) q.key items q.times.finish o h t)

  after_all-Holds :
      (qs : List (Search A)) (c : Cache A)
      → All (λ q. (str_eq q.key key ≡ false) × (q.times.finish ≤ e.stale_until)) qs
      → c.entries key ≡ some e
      → (after_all qs c).entries key ≡ some e
  unfolding after_all
  after_all-Holds [] c o h = h
  after_all-Holds (q ∷ qs) c o h = after_all-Holds qs _ o.1 (search_chats-Holds c q o.0.0 h o.0.1)

  search_chats_fresh :
      (c : Cache A) (t : Times) (b : Bridge A)
      → c.entries key ≡ some e
      → t.look ≤ e.expires_at
      → search_chats c key t b ≡ (ok (result_from_entry c e false "cache" "fresh_cache"), c, false)
  unfolding search_chats fresh
  search_chats_fresh c t b h l = ground arith

  result_from_entry-items :
      (c : Cache A) (stale : Bool) (source reason : String)
      → (result_from_entry c e stale source reason).items ≡ e.items
  unfolding result_from_entry
  result_from_entry-items c stale source reason = refl

store-entry :
    {A : Type 0} (c : Cache A) (key : String) (items : List A) (now : Time)
    → (store c key items now).1.entries key ≡ some (new_entry c items now)
unfolding store
store-entry c key items now = rw eq_refl

-- What a live search has stored under a key at a time answers every search under that key up to the
-- end of the fresh time: with the same records, without asking the bridge and without a change of
-- the cache, whatever searches under other keys have ended before the entry goes stale.
pub store-reuse :
    {A : Type 0} (c : Cache A) (key : String) (items : List A) (now : Time) (qs : List (Search A))
    (t : Times) (b : Bridge A)
    → All (λ q. (str_eq q.key key ≡ false) × (q.times.finish ≤ now + c.stale_ttl)) qs
    → t.look ≤ now + c.fresh_ttl
    → let c' = after_all qs (store c key items now).1 in
      (r : Result A) × (r.items ≡ items) × (search_chats c' key t b ≡ (ok r, c', false))
unfolding new_entry
store-reuse c key items now qs t b o l =
    let e : Entry _ = new_entry c items now in
    let held = after_all-Holds key e qs (store c key items now).1 o (store-entry c key items now) in
    (
      _,
      result_from_entry-items key e _ false "cache" "fresh_cache",
      search_chats_fresh key e _ t b held l,
    )
