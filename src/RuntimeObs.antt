-- ===== src/RuntimeObs.antt =====
-- pkg/runtimeobs/registry.go: lifecycle events of an instance are passed on to listeners, and
-- repeated observations of one status are dropped.
--
-- The registry is passed from call to call. The payload of an event is a value of any type `P`, and a
-- listener one of any type `L`; the calls that `NotifyLifecycleEvent` starts, one goroutine for each
-- listener, are returned.

pub mod Dedup
pub mod Notified
pub mod Examples
use fmxevolution_go.Base.{
  ℕ, ◌-◌, ◌*◌, String, Bool, true, false, ◌&&◌, ◌||◌, not, Option, none, some, List, [], ◌∷◌, ◌++◌,
  map, str_eq, ltb, if◌then◌else◌, Time, is_zero_time, second, concat, is_blank, trim_space, GoMap,
  put, or_else,
}

pub record LifecycleEvent (P : Type 0) : Type 0 where
  pub instance_id : String
  pub event_type : String
  pub event_source : String
  pub status : String
  pub connected : Bool
  pub logged_in : Bool
  pub pairing_active : Bool
  pub disconnect_reason : String
  pub error_message : String
  pub message : String
  pub payload : P
  pub occurred_at : Time

-- `lifecycleRegistry`
pub record Registry (L : Type 0) : Type 0 where
  pub listeners : List L
  pub last_seen : GoMap Time

abbrev pub lifecycle_status_observed_min_interval : ℕ
lifecycle_status_observed_min_interval = 15 * second

unfoldable pub register_lifecycle_listener : {L : Type 0} → Option L → Registry L → Registry L
register_lifecycle_listener none g = g
register_lifecycle_listener (some l) g = record g { listeners = g.listeners ++ l ∷ [] }

unfoldable pub bool_key : Bool → String
bool_key true = "true"
bool_key false = "false"

module _ {P : Type 0} where
  unfoldable pub duplicate_key : LifecycleEvent P → String
  unfolding concat bool_key
  duplicate_key e = concat (
      e.instance_id
      ∷ "\0"
      ∷ e.event_type
      ∷ "\0"
      ∷ e.status
      ∷ "\0"
      ∷ bool_key e.connected
      ∷ "\0"
      ∷ bool_key e.logged_in
      ∷ "\0"
      ∷ bool_key e.pairing_active
      ∷ "\0"
      ∷ e.disconnect_reason
      ∷ "\0"
      ∷ e.error_message
      ∷ [])

  -- The event without white space around its texts, at the present time if it has none.
  unfoldable pub normalize : Time → LifecycleEvent P → LifecycleEvent P
  normalize now e = record e {
    occurred_at = if is_zero_time e.occurred_at then now else e.occurred_at;
    instance_id = trim_space e.instance_id;
    event_type = trim_space e.event_type;
    event_source = trim_space e.event_source;
    status = trim_space e.status;
    disconnect_reason = trim_space e.disconnect_reason;
    error_message = trim_space e.error_message;
    message = trim_space e.message;
  }

  -- An event before the last one counts as one within the interval, which is positive.
  unfoldable pub should_drop_duplicate_lifecycle_event :
      LifecycleEvent P → GoMap Time → Bool × GoMap Time
  should_drop_duplicate_lifecycle_event e seen =
      let key = duplicate_key e in
      let last = or_else (seen key) 0 in
      if str_eq e.event_type "status_observed"
      then if not (is_zero_time last)
          && ltb (e.occurred_at - last) lifecycle_status_observed_min_interval
        then (true, seen)
        else (false, put key e.occurred_at seen)
      else (false, seen)

module _ {P L : Type 0} where
  unfoldable pub notify_lifecycle_event :
      Time → LifecycleEvent P → Registry L → List (L × LifecycleEvent P) × Registry L
  unfolding should_drop_duplicate_lifecycle_event normalize
  notify_lifecycle_event now e g =
      let e' = normalize now e in
      let (drop_it, seen) = should_drop_duplicate_lifecycle_event e' g.last_seen in
      if is_blank e.instance_id || is_blank e.event_type
      then ([], g)
      else if drop_it
      then ([], record g { last_seen = seen })
      else (map (λ l. (l, e')) g.listeners, record g { last_seen = seen })
