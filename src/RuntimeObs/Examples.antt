-- ===== src/RuntimeObs/Examples.antt =====
-- The theorems on lifecycle events at concrete inputs.
use fmxevolution_go.Base.{ℕ, ◌*◌, true, false, List, [], ◌∷◌, second, empty_map, arith}
use fmxevolution_go.RuntimeObs.{LifecycleEvent, Registry, notify_lifecycle_event}
use fmxevolution_go.RuntimeObs.Dedup.{Report, Spaced, told, told-Spaced}
use fmxevolution_go.RuntimeObs.Notified.{Notified, reported, observation_key, notify-Notified}

abbrev event : ℕ → LifecycleEvent ℕ
event at = record {
  instance_id = " i1 ";
  event_type = "status_observed";
  event_source = "runtime";
  status = "open";
  connected = true;
  logged_in = true;
  pairing_active = false;
  disconnect_reason = "";
  error_message = "";
  message = "";
  payload = 0;
  occurred_at = at;
}

abbrev registry : Registry ℕ
registry = record { listeners = 7 ∷ 8 ∷ []; last_seen = empty_map }

abbrev reports : List (Report ℕ)
reports = (5, event 5) ∷ (6, event 0) ∷ (20 * second, event (20 * second)) ∷ []

told-Spaced_example : Spaced (told reports registry)
told-Spaced_example = told-Spaced reports registry (omega arith, (omega arith, (omega arith, tt)))

notify-Notified_example :
    Notified
      (observation_key (reported 5 (event 5)))
      5
      (event 5)
      registry
      (notify_lifecycle_event 5 (event 5) registry)
notify-Notified_example = notify-Notified 5 (event 5) registry
