-- ===== src/ChatSearch.antt =====
-- internal/instance/chat_cache.go, and `SearchChats` of internal/instance/service.go, which answers
-- from that cache or from the live bridge.
--
-- The cache is passed from call to call; its mutex makes each call one step. A chat record is a
-- value of any type `A`: the code copies the records and reads none of their fields. The bridge is
-- what it answers with; logging is left out.
pub mod Searches
pub mod Reuse
pub mod Examples
use fmxevolution_go.Base.{
  ℕ, ◌+◌, ◌-◌, ◌*◌, ◌/◌, String, Bool, true, false, ◌&&◌, ◌||◌, not, Option, none, some, List, [],
  ◌∷◌, str_eq, ltb, if◌then◌else◌, Time, is_zero_time, after, second, concat, contains, ℤ, is_pos,
  nonneg_part, GoMap, put, empty_map, or_else, trim_space, to_lower,
}
use fmxevolution_go.Base.Effect.{Out, ok, err}
use fmxevolution_go.Domain.{Kind, GoError, domain_error, plain_error}

-- `chatSearchFilter`
pub record Filter : Type 0 where
  pub remote_jid : String
  pub query : String

pub record Meta : Type 0 where
  pub cached : Bool
  pub stale : Bool
  pub source : String
  pub refreshed_at : Time
  pub expires_at : Time
  pub stale_until : Time
  pub ttl_seconds : ℕ
  pub stale_ttl_seconds : ℕ
  pub reason : String
  pub operator_message : String

pub record Result (A : Type 0) : Type 0 where
  pub items : List A
  pub meta : Meta

-- `chatSearchCacheEntry`
pub record Entry (A : Type 0) : Type 0 where
  pub items : List A
  pub refreshed_at : Time
  pub expires_at : Time
  pub stale_until : Time

-- `chatSearchCache`; the durations are not negative behind `newChatSearchCache`.
pub record Cache (A : Type 0) : Type 0 where
  pub entries : GoMap (Entry A)
  pub fresh_ttl : ℕ
  pub stale_ttl : ℕ
  pub live_throttle : ℕ
  pub last_live_attempt : GoMap Time

unfoldable pub new_chat_search_cache : {A : Type 0} → ℤ → ℤ → ℤ → Cache A
new_chat_search_cache fresh stale throttle =
    let fresh_ttl = if is_pos fresh then nonneg_part fresh else 30 * second in
    record {
      entries = empty_map;
      fresh_ttl = fresh_ttl;
      stale_ttl = if ltb (nonneg_part stale) fresh_ttl then fresh_ttl else nonneg_part stale;
      live_throttle = if is_pos throttle then nonneg_part throttle else 5 * second;
      last_live_attempt = empty_map;
    }

-- The separator is the character 0.
unfoldable pub chat_search_cache_key : String → String → Filter → String
unfolding concat
chat_search_cache_key tenant inst f = concat (
    trim_space tenant
    ∷ "\0"
    ∷ trim_space inst
    ∷ "\0"
    ∷ to_lower (trim_space f.remote_jid)
    ∷ "\0"
    ∷ to_lower (trim_space f.query)
    ∷ [])

module _ {A : Type 0} where
  -- A copy of the records is the records.
  unfoldable pub result_from_entry : Cache A → Entry A → Bool → String → String → Result A
  result_from_entry c e stale source reason =
      let cached = str_eq source "cache" in
      record {
        items = e.items;
        meta = record {
          cached = cached;
          stale = stale;
          source = source;
          refreshed_at = e.refreshed_at;
          expires_at = e.expires_at;
          stale_until = e.stale_until;
          ttl_seconds = c.fresh_ttl / second;
          stale_ttl_seconds = c.stale_ttl / second;
          reason = reason;
          operator_message =
              if cached && stale
              then "chat list returned from stale cache because live bridge refresh was not available"
              else if cached
              then "chat list returned from fresh cache"
              else "chat list returned from live bridge";
        };
      }

  unfoldable pub fresh : Cache A → String → Time → Option (Result A)
  unfolding result_from_entry
  fresh c key now = elim (c.entries key) [
    | none ↦ none
    | some e ↦
        if after now e.expires_at
        then none
        else some (result_from_entry c e false "cache" "fresh_cache")
  ]

  unfoldable pub stale : Cache A → String → Time → String → Option (Result A)
  unfolding result_from_entry
  stale c key now reason = elim (c.entries key) [
    | none ↦ none
    | some e ↦
        if after now e.stale_until then none else some (result_from_entry c e true "cache" reason)
  ]

  -- Whether the last live attempt for the key is less than the throttle ago. A time before it counts
  -- as one, since the throttle is positive.
  unfoldable pub is_recent : Cache A → String → Time → Bool
  is_recent c key now =
      let last = or_else (c.last_live_attempt key) 0 in
      not (is_zero_time last) && ltb (now - last) c.live_throttle

  unfoldable pub throttled : Cache A → String → Time → Option (Result A)
  unfolding result_from_entry is_recent
  throttled c key now = elim (c.entries key) [
    | none ↦ none
    | some e ↦
        if after now e.stale_until
        then none
        else if is_recent c key now
        then some (result_from_entry c e true "cache" "live_query_throttled")
        else none
  ]

  unfoldable pub begin_live_attempt : Cache A → String → Time → Bool × Cache A
  unfolding is_recent
  begin_live_attempt c key now =
      if is_recent c key now
      then (false, c)
      else (true, record c { last_live_attempt = put key now c.last_live_attempt })

  is_dead : Time → Option (Entry A) → Bool
  is_dead now none = false
  is_dead now (some e) = after now e.stale_until

  unfoldable pub cleanup_expired : Time → Cache A → Cache A
  unfolding is_dead
  cleanup_expired now c = record c {
    entries = λ key. if is_dead now (c.entries key) then none else c.entries key;
    last_live_attempt =
        λ key. if is_dead now (c.entries key) then none else c.last_live_attempt key;
  }

  unfoldable pub new_entry : Cache A → List A → Time → Entry A
  new_entry c items now = record {
    items = items;
    refreshed_at = now;
    expires_at = now + c.fresh_ttl;
    stale_until = now + c.stale_ttl;
  }

  unfoldable pub store : Cache A → String → List A → Time → Result A × Cache A
  unfolding cleanup_expired new_entry result_from_entry
  store c key items now =
      let kept = cleanup_expired now c in
      let entry = new_entry c items now in
      (
        result_from_entry c entry false "live" "",
        record kept {
          entries = put key entry kept.entries;
          last_live_attempt = put key now kept.last_live_attempt;
        },
      )

is_rate_limit : String → Bool
is_rate_limit message =
    contains message "rate limit"
    || contains message "ratelimit"
    || contains message "too many requests"
    || contains message "429"

unfoldable pub stale_reason_for_chat_search_error : GoError → String
unfolding is_rate_limit
stale_reason_for_chat_search_error e =
    if is_rate_limit (to_lower (trim_space e.text))
    then "bridge_rate_limited"
    else "bridge_unavailable"

is_passed_on : Kind → Bool
is_passed_on Kind.timeout = true
is_passed_on Kind.validation = true
is_passed_on Kind.not_found = true
is_passed_on _ = false

is_unavailable : String → Bool
is_unavailable message =
    contains message "runtime unavailable"
    || contains message "legacy runtime unavailable"
    || contains message "legacy client runtime unavailable"
    || contains message "legacy chat services unavailable"
    || contains message "no active session found"
    || contains message "not connected"
    || contains message "connection"
    || contains message "timeout"

-- Of an error that is not nil.
unfoldable pub normalize_chat_search_bridge_error : GoError → GoError
unfolding is_passed_on is_rate_limit is_unavailable
normalize_chat_search_bridge_error e =
    let message = to_lower (trim_space e.text) in
    if is_passed_on e.kind
    then e
    else if is_rate_limit message
    then domain_error Kind.rate_limited
        "live chat search is rate limited; retry shortly or use cached data when available"
    else if is_unavailable message
    then domain_error Kind.conflict "live chat search unavailable; no cached chat list is available"
    else e

-- What the bridge offers: no runtime, with the error if there is one; a runtime that cannot search
-- chats; or one that answers.
pub data Bridge (A : Type 0) : Type 0 where
  unavailable : Option GoError → Bridge A
  other_runtime : Bridge A
  answer : Out GoError (List A) → Bridge A

-- The times of the steps of a search: the two looks into the cache, the start of a live attempt and
-- what follows the bridge.
pub record Times : Type 0 where
  pub look : Time
  pub look_again : Time
  pub start : Time
  pub finish : Time

-- The outcome of a search, and whether it asked the bridge.
abbrev pub Answer : Type 0 → Type 0
Answer A = Out GoError (Result A) × Cache A × Bool

module _ {A : Type 0} where
  -- The cache where it has a result, and else the error.
  or_stale : Cache A → String → Time → String → GoError → Answer A
  or_stale c key now reason e = elim (stale c key now reason) [
    | some r ↦ (ok r, c, true)
    | none ↦ (err (normalize_chat_search_bridge_error e), c, true)
  ]

  pub ask_bridge : Cache A → String → Time → Bridge A → Answer A
  unfolding or_stale
  ask_bridge c key now (unavailable e) =
      or_stale c key now "bridge_unavailable" (or_else e (plain_error "runtime unavailable"))
  ask_bridge c key now other_runtime =
      or_stale c key now "bridge_unavailable" (plain_error "legacy runtime unavailable")
  ask_bridge c key now (answer (err e)) =
      or_stale c key now (stale_reason_for_chat_search_error e) e
  ask_bridge c key now (answer (ok items)) = let (r, c') = store c key items now in (ok r, c', true)

  live_search : Cache A → String → Times → Bridge A → Answer A
  unfolding ask_bridge
  live_search c key t b =
      let (started, c') = begin_live_attempt c key t.start in
      if started then ask_bridge c' key t.finish b else (
        err (domain_error Kind.conflict "live chat search is temporarily throttled; retry shortly"),
        c,
        false,
      )

  -- `SearchChats` behind the resolution of the instance, the filter and the context.
  unfoldable pub search_chats : Cache A → String → Times → Bridge A → Answer A
  unfolding live_search
  search_chats c key t b = elim (fresh c key t.look) [
    | some r ↦ (ok r, c, false)
    | none ↦ elim (throttled c key t.look_again) [
      | some r ↦ (ok r, c, false)
      | none ↦ live_search c key t b
    ]
  ]
