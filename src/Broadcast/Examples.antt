-- ===== src/Broadcast/Examples.antt =====
-- The theorems on broadcasts at concrete inputs.
use Prim.Native.String.{len}
use fmxevolution_go.Base.{
  filter, ◌+◌, trim_space, arith, suc, String, true, false, ◌≡◌, refl, ◌⊎◌, none, some, List, [],
  ◌∷◌, ◌≤◌, ◌<◌, ◌-◌, ◌*◌, empty_map, All, Pointwise, ℕ, str_eq, pos, second, length, order_by,
  to_lower,
}
use fmxevolution_go.Base.Effect.{ok, ◌>>=◌, map_err, fail_if, pure}
use fmxevolution_go.Broadcast.Model.{
  BroadcastJob, BroadcastRecipientProgress, no_analytics, status_queued, new_progress,
}
use fmxevolution_go.Broadcast.Repo.{
  of_broadcast, mark_recipient_receipt, analytics_row, list_recipient_progress,
  seed_recipient_progress, overwrite, save_recipient_progress, update_rows,
}
use fmxevolution_go.Broadcast.Repo.Receipts.{Advances, mark_recipient_receipt-Advances}
use fmxevolution_go.Broadcast.Repo.Summary.{analytics_row-total}
use fmxevolution_go.Broadcast.Jobs.{claimed, has_id, claim_next}
use fmxevolution_go.Broadcast.Jobs.ClaimOnce.{Taken, claim_next_once}
use fmxevolution_go.Broadcast.Env.{
  Contact, Env, World, check_context, request, db_call, ask, send_text_call,
}
use fmxevolution_go.Broadcast.Recipients.{
  is_settled, eligible_broadcast_recipients, seed_records, pending_recipient_progress,
  is_confirmed_send_attempt,
}
use fmxevolution_go.Broadcast.Recipients.Eligible.{
  Distinct, Comes, is_eligible, has_phone, eligible_broadcast_recipients_lem,
}
use fmxevolution_go.Broadcast.Listing.{
  ListRecipientsInput, BroadcastRecipientProgressFilter, total_pages, is_recipient_status,
  normalize_recipient_list_filter, max_broadcast_recipient_page, max_broadcast_recipient_limit,
  max_broadcast_recipient_query_len,
}
use fmxevolution_go.Broadcast.Listing.Pages.{
  first_pages, pages_complete, normalize_recipient_list_filter_bounds,
}
use fmxevolution_go.Broadcast.Processor.{
  deliver_all, process, find_instance, load_or_seed_recipient_progress, list_progress, seed,
  attempt, check_each, deliver_one, delivered, or_seed, pace, save, seed_and_list, settle,
}
use fmxevolution_go.Broadcast.Delivery.Complete.{process-settled}
use fmxevolution_go.Broadcast.Delivery.Progress.{process-Runs}
use fmxevolution_go.Broadcast.Delivery.Outbox.{Sends, outbox-deliver_all}
use fmxevolution_go.Broadcast.Worker.{Settings, claim_and_enqueue}
use fmxevolution_go.Broadcast.Worker.Retry.{History, here, next, claim, attempts_bounded}
use fmxevolution_go.Broadcast.Worker.Queue.{Idle, Claimed, claim_and_enqueue-Claimed}
use fmxevolution_go.Broadcast.Worker.Slots.{SlotRequest, Spaced, grants, grants-Spaced}

abbrev pub job : BroadcastJob
job = record {
  id = "b1";
  tenant_id = "t1";
  instance_id = "i1";
  status = status_queued;
  message = "hello";
  rate_per_hour = pos 60;
  delay_sec = pos 0;
  attempts = 0;
  max_attempts = pos 3;
  worker_id = "";
  last_error = "";
  scheduled_at = none;
  available_at = 5;
  started_at = none;
  completed_at = none;
  failed_at = none;
  created_at = 4;
  recipient_total = 0;
  recipient_attempted = 0;
  recipient_sent = 0;
  recipient_failed = 0;
  recipient_pending = 0;
  recipient_partial = false;
  recipient_analytics = no_analytics;
  recipients = [];
}

abbrev row : String → String → BroadcastRecipientProgress
row phone status = record {
  id = "r1";
  broadcast_id = "b1";
  tenant_id = "t1";
  instance_id = "i1";
  contact_id = none;
  phone = phone;
  delivery_status = status;
  attempt_count = 0;
  last_error = "";
  last_attempt_at = none;
  sent_at = none;
  delivered_at = none;
  read_at = none;
  failed_at = none;
  last_status_at = none;
  status_source = "";
  message_id = "m1";
  server_id = 0;
  chat_jid = "";
  created_at = 4;
}

-- Nothing fails, there are two contacts of which one is this instance's, and each send is confirmed.
abbrev pub env : Env
env = record {
  clock = λ t. suc t;
  cancelled = λ _. none;
  db_fault = λ _. none;
  new_id = λ _ _. "r1";
  phone_le = λ _ _. true;
  ilike = λ _ _. false;
  scan_analytics = λ s. s;
  other_slots = λ n m. m;
  has_repo = true;
  has_instances = true;
  has_contacts = true;
  has_sender = true;
  get_by_id = λ _ _ _. ok (some (record { id = "i1"; tenant_id = "t1" }));
  get_by_global_id = λ _ _. ok (some (record { id = "i1"; tenant_id = "t1" }));
  list_contacts = λ _ _. ok (
      record { id = "c1"; instance_id = "i1"; phone = "551" }
      ∷ record { id = "c2"; instance_id = "i2"; phone = "552" }
      ∷ []);
  send_text = λ _ c.
      ok (some (record { message_id = "m1"; server_id = 1; chat = c.number; timestamp = 7 }));
}

abbrev pub world : World
world = record {
  db = record { jobs = job ∷ []; progress = [] };
  tick = 0;
  outbox = [];
  queue = [];
  next_instance_at = empty_map;
}

abbrev after_run : World
after_run = (process env job world).1

ends_well : process env job world ≡ (ok tt, after_run)
unfolding process ◌>>=◌ map_err check_context fail_if trim_space find_instance request
    load_or_seed_recipient_progress list_progress db_call list_recipient_progress
    eligible_broadcast_recipients seed seed_recipient_progress seed_records deliver_all
    pending_recipient_progress pure order_by to_lower ask send_text_call new_progress attempt
    check_each deliver_one delivered or_seed pace save seed_and_list settle
    is_confirmed_send_attempt is_settled overwrite save_recipient_progress update_rows
ends_well = refl

process-settled_example :
    All (λ x. is_settled x ≡ true) (filter (of_broadcast "t1" "b1") after_run.db.progress)
process-settled_example = process-settled env job world after_run ends_well

abbrev seeded : World
seeded = record world {
  db = record { jobs = job ∷ []; progress = row "551" "pending" ∷ row "552" "sent" ∷ [] };
}

process-Runs_example :
    (t : World) × (process env job seeded ≡ (ok tt, t))
    × All (λ x. is_settled x ≡ true) (filter (of_broadcast "t1" "b1") t.db.progress)
unfolding is_confirmed_send_attempt list_recipient_progress order_by trim_space
process-Runs_example =
    process-Runs env job seeded (record { id = "i1"; tenant_id = "t1" }) (λ _. refl) (λ _. refl)
      refl refl (λ _. refl) refl (λ _ _. refl)

outbox-deliver_all_example :
    Sends job "i1"
      (row "551" "pending" ∷ row "552" "pending" ∷ [])
      world
      (deliver_all env job "i1" true (row "551" "pending" ∷ row "552" "pending" ∷ []) world)
outbox-deliver_all_example =
    outbox-deliver_all env job "i1" true (row "551" "pending" ∷ row "552" "pending" ∷ []) world

one_claim : History job (claimed "dispatcher" 9 job) 1
one_claim = next here (claim job "dispatcher" 9 refl)

attempts_bounded_example : ((claimed "dispatcher" 9 job).attempts ≤ 3) × (1 ≤ 6)
attempts_bounded_example =
    attempts_bounded job (claimed "dispatcher" 9 job) 1 refl refl (omega arith) one_claim

claim_next_once_example :
    let (got, table) = claim_next "dispatcher" 2 9 (job ∷ []) in
    All (Taken "dispatcher" 9 (job ∷ [])) got
    × (◌≡◌ {A = ℕ} 2 0 ⊎ (length got ≤ 2))
    × All (λ j. has_id got j.id ≡ false) (filter (λ j. str_eq j.status "queued") table)
claim_next_once_example = claim_next_once "dispatcher" 2 9 (job ∷ [])

abbrev settings : Settings
settings = record { workers = 2; claim_batch_size = 2; queue_capacity = 8 }

claim_and_enqueue-Claimed_example :
    let w' = (claim_and_enqueue env settings world).1 in
    Idle env settings world w' ⊎ Claimed world w' 8
claim_and_enqueue-Claimed_example =
    claim_and_enqueue-Claimed env settings world (omega arith) (omega arith)

abbrev requests : List SlotRequest
requests =
    record { instance_id = "i1"; rate = pos 60; now = 5 }
    ∷ record { instance_id = "i1"; rate = pos 60; now = 9 }
    ∷ record { instance_id = "i1"; rate = pos 60; now = 60 * second + 5 }
    ∷ []

grants-Spaced_example : Spaced (grants requests empty_map)
grants-Spaced_example = grants-Spaced requests empty_map

mark_recipient_receipt-Advances_example :
    Pointwise
      (Advances " t1 ")
      (row "551" "sent" ∷ row "552" "failed" ∷ [])
      (mark_recipient_receipt " t1 " "i1" "m1" "READ" 9
        (row "551" "sent" ∷ row "552" "failed" ∷ [])).0
mark_recipient_receipt-Advances_example =
    mark_recipient_receipt-Advances " t1 " "i1" "m1" "READ" 9
      (row "551" "sent" ∷ row "552" "failed" ∷ [])

analytics_row-total_example :
    let s = analytics_row "t1" "b1" (row "551" "read" ∷ row "552" "failed" ∷ []) in
    (s.sent + s.failed + s.pending ≡ s.total_recipients)
    × (s.attempted ≤ s.total_recipients)
    × (s.delivered ≤ s.total_recipients)
    × (s.read ≤ s.total_recipients)
analytics_row-total_example =
    analytics_row-total "t1" "b1" (row "551" "read" ∷ row "552" "failed" ∷ []) (refl, (refl, tt))

abbrev contacts : List Contact
contacts =
    record { id = "c1"; instance_id = "i1"; phone = " 551 " }
    ∷ record { id = ""; instance_id = ""; phone = "551" }
    ∷ record { id = "c3"; instance_id = "i2"; phone = "553" }
    ∷ []

eligible_broadcast_recipients_example :
    let rs = eligible_broadcast_recipients contacts "i1" in
    Distinct rs
    × All (Comes "i1" contacts) rs
    × All (λ c. has_phone (trim_space c.phone) rs ≡ true) (filter (is_eligible "i1") contacts)
eligible_broadcast_recipients_example = eligible_broadcast_recipients_lem contacts "i1"

abbrev rows : List BroadcastRecipientProgress
rows = row "551" "sent" ∷ row "552" "pending" ∷ row "553" "read" ∷ []

abbrev filter_of_two : BroadcastRecipientProgressFilter
filter_of_two = record { status = ""; query = ""; page = 1; limit = 2 }

pages_complete_example :
    (total_pages 3 2 ≤ 1000)
    × (first_pages filter_of_two rows (total_pages 3 2) ≡ rows)
    × ((rows ≡ []) ⊎ (length (first_pages filter_of_two rows (total_pages 3 2 - 1)) < 3))
pages_complete_example = pages_complete filter_of_two rows (omega arith) (omega arith)

abbrev input : ListRecipientsInput
input = record { page = pos 0; limit = pos 500; status = " Sent "; query = "55" }

abbrev accepted : BroadcastRecipientProgressFilter
accepted = record { status = "sent"; query = "55"; page = 1; limit = 200 }

is_accepted : normalize_recipient_list_filter input ≡ ok accepted
unfolding normalize_recipient_list_filter is_recipient_status to_lower trim_space
is_accepted = refl

normalize_recipient_list_filter_bounds_example :
    (1 ≤ 1)
    × (1 ≤ max_broadcast_recipient_page)
    × (1 ≤ 200)
    × (200 ≤ max_broadcast_recipient_limit)
    × (is_recipient_status "sent" ≡ true)
    × (len "55" ≤ max_broadcast_recipient_query_len)
normalize_recipient_list_filter_bounds_example =
    normalize_recipient_list_filter_bounds input accepted is_accepted
