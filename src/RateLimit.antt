-- ===== src/RateLimit.antt =====
-- internal/middleware/rate_limit.go: the rate limiter in memory and its middleware.
--
-- The store is passed from call to call; the mutex makes each call of `Allow` one step. A window is a
-- positive number of nanoseconds, as in every policy of the file. `RedisRateLimitStore`, which only
-- returns an error and which nothing makes, and the writing of headers and bodies are left out.
pub mod Window
pub mod Middleware
pub mod Examples
use fmxevolution_go.Base.{
  ℕ, suc, ◌+◌, ◌-◌, String, Bool, true, false, ◌&&◌, ◌||◌, not, Option, none, some, List, [], ◌∷◌,
  str_eq, ltb, leb, ◌==◌, if◌then◌else◌, Time, is_zero_time, after, minute, hour, concat, ℤ, is_pos,
  nonneg_part, GoMap, put, retain, or_else, trim_space,
}
use fmxevolution_go.Base.Effect.{Out, ok, err}
use fmxevolution_go.Domain.{Kind, GoError, domain_error, plain_error}

pub record RateLimitPolicy : Type 0 where
  pub name : String
  pub limit : ℤ
  pub window : ℕ

pub record RateLimitDecision : Type 0 where
  pub allowed : Bool
  pub remaining : ℕ
  pub reset_at : Time
  pub scope : String
  pub policy : String
  pub limit : ℤ
  pub current_hits : ℕ

-- `memoryRateLimitEntry`
pub record Entry : Type 0 where
  pub count : ℕ
  pub window_end : Time

abbrev pub Store : Type 0
Store = GoMap Entry

-- `!entry.windowEnd.IsZero() && now.After(entry.windowEnd)`
abbrev pub is_expired : Time → Entry → Bool
is_expired now e = not (is_zero_time e.window_end) && after now e.window_end

unfoldable pub prune_expired : Time → Store → Store
prune_expired now = retain (λ _ e. not (is_expired now e))

-- The entry under which a call counts, before it is counted.
unfoldable pub current_entry : String → Time → ℕ → Store → Entry
current_entry key now window m =
    let entry = or_else (m key) (record { count = 0; window_end = 0 }) in
    if is_zero_time entry.window_end || after now entry.window_end
    then record { count = 0; window_end = now + window }
    else entry

decide : ℤ → Entry → RateLimitDecision
decide limit e = record {
  allowed = leb e.count (nonneg_part limit);
  remaining = nonneg_part limit - e.count;
  reset_at = e.window_end;
  scope = "";
  policy = "";
  limit = limit;
  current_hits = e.count;
}

-- `MemoryRateLimitStore.Allow` at a time: the decision and the store.
unfoldable pub allow : String → ℤ → ℕ → Time → Store → RateLimitDecision × Store
unfolding prune_expired current_entry decide
allow key limit window now m =
    let pruned = prune_expired now m in
    let entry = current_entry key now window pruned in
    let counted = record entry { count = suc entry.count } in
    if is_pos limit then (decide limit counted, put key counted pruned) else (
      record {
        allowed = true;
        remaining = 0;
        reset_at = now + window;
        scope = "";
        policy = "";
        limit = limit;
        current_hits = 0;
      },
      m,
    )

unfoldable pub message_rate_limit_policy : ℤ → RateLimitPolicy
message_rate_limit_policy limit = record {
  name = "messages_per_minute";
  limit = limit;
  window = minute;
}

unfoldable pub search_rate_limit_policy : ℤ → RateLimitPolicy
search_rate_limit_policy limit = record {
  name = "search_per_minute";
  limit = limit;
  window = minute;
}

unfoldable pub broadcast_rate_limit_policy : ℤ → RateLimitPolicy
broadcast_rate_limit_policy limit = record {
  name = "broadcast_per_hour";
  limit = limit;
  window = hour;
}

unfoldable pub webhook_rate_limit_policy : ℤ → RateLimitPolicy
webhook_rate_limit_policy limit = record {
  name = "webhook_calls_per_minute";
  limit = limit;
  window = minute;
}

unfoldable pub login_rate_limit_policy : ℤ → RateLimitPolicy
login_rate_limit_policy limit = record { name = "login_per_minute"; limit = limit; window = minute }

unfoldable pub scoped_rate_limit_key : String → String → String → String
unfolding concat
scoped_rate_limit_key policy scope subject =
    concat ("rate_limit:" ∷ policy ∷ ":" ∷ scope ∷ ":" ∷ subject ∷ [])

-- The body of a request, as reading it and `json.Unmarshal` find it. A field is `none` where its
-- value is no string.
pub data Body : Type 0 where
  no_body : Body
  unreadable : GoError → Body
  blank : Body
  malformed : GoError → Body
  object : GoMap (Option String) → Body

-- A request as the middleware sees it: what the header, the four parameters and the two queries of
-- `extractInstanceID` hold, in its order.
pub record Request : Type 0 where
  pub tenant_id : String
  pub client_ip : String
  pub places : List String
  pub body : Body

-- The first text that is not blank, without the white space around it.
unfoldable pub first_place : List String → Option String
first_place [] = none
first_place (p ∷ ps) =
    let rest = first_place ps in
    let value = trim_space p in if str_eq value "" then rest else some value

string_field : GoMap (Option String) → String → Option String
string_field fields key = elim (fields key) [ none ↦ none | some v ↦ v ]

-- Of the keys `instance_id` and `instanceId`, the first that holds a string.
instance_field : GoMap (Option String) → String
unfolding string_field
instance_field fields = elim (string_field fields "instance_id") [
  | some v ↦ trim_space v
  | none ↦ elim (string_field fields "instanceId") [ some v ↦ trim_space v | none ↦ "" ]
]

body_instance : Body → Out GoError String
unfolding instance_field
body_instance no_body = ok ""
body_instance (unreadable e) = err e
body_instance blank = ok ""
body_instance (malformed e) = err e
body_instance (object fields) = ok (instance_field fields)

unfoldable pub extract_instance_id : Request → Out GoError String
unfolding first_place body_instance
extract_instance_id r = elim (first_place r.places) [
  | some value ↦ ok value
  | none ↦ body_instance r.body
]

-- What the middleware does with a request: it calls the next handler, with the decision for the
-- tenant and the one for the instance, if there is one, whose figures stand in the headers; or it
-- answers 429; or it answers with an error.
pub data Outcome : Type 0 where
  next : RateLimitDecision → Option (String × RateLimitDecision) → Outcome
  limited : RateLimitDecision → Outcome
  failed : GoError → Outcome

abbrev pub named : String → RateLimitPolicy → RateLimitDecision → RateLimitDecision
named scope p d = record d { scope = scope; policy = p.name }

-- The two calls of `Allow` are made at two times.
instance_step :
    RateLimitPolicy → String → String → Time → RateLimitDecision → Store → Outcome × Store
instance_step p tenant inst now tenant_decision m =
    let (d, m') =
      allow (scoped_rate_limit_key p.name "instance" (concat (tenant ∷ ":" ∷ inst ∷ []))) p.limit
        p.window now m in
    if d.allowed
    then (next tenant_decision (some (inst, named "instance" p d)), m')
    else (limited (named "instance" p d), m')

admit : RateLimitPolicy → String → String → Time → Time → Store → Outcome × Store
unfolding instance_step
admit p tenant inst now later m =
    let (d, m') = allow (scoped_rate_limit_key p.name "tenant" tenant) p.limit p.window now m in
    let tenant_decision = named "tenant" p d in
    if d.allowed
    then if str_eq inst ""
      then (next tenant_decision none, m')
      else instance_step p tenant inst later tenant_decision m'
    else (limited tenant_decision, m')

admit_instance :
    RateLimitPolicy → String → Out GoError String → Time → Time → Store → Outcome × Store
unfolding admit
admit_instance p tenant (err e) now later m =
    (failed (domain_error Kind.validation "invalid request body for rate limiting"), m)
admit_instance p tenant (ok inst) now later m = admit p tenant inst now later m

-- `RateLimiter.Middleware`
unfoldable pub middleware : RateLimitPolicy → Request → Time → Time → Store → Outcome × Store
unfolding admit_instance
middleware p r now later m =
    if str_eq r.tenant_id ""
    then (failed (plain_error "unauthorized"), m)
    else admit_instance p r.tenant_id (extract_instance_id r) now later m

-- `RateLimiter.MiddlewareByIP`; no figures stand in the headers.
unfoldable pub middleware_by_ip : RateLimitPolicy → Request → Time → Store → Outcome × Store
middleware_by_ip p r now m =
    let (d, m') = allow (scoped_rate_limit_key p.name "ip" r.client_ip) p.limit p.window now m in
    if d.allowed then (next (named "ip" p d) none, m') else (limited (named "ip" p d), m')
