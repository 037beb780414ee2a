-- ===== src/Webhook/Repo.antt =====
-- The tables of webhooks and the statements that internal/repository/gorm.go runs on them. A function
-- here is the effect of a statement that the database carries out; the calls that the database
-- refuses are in Webhook.Env.
use fmxevolution_go.Base.{
  ℕ, String, Bool, true, false, ◌&&◌, ◌||◌, not, Option, none, some, List, [], ◌∷◌, ◌++◌, str_eq,
  leb, ltb, if◌then◌else◌, Time, is_pos, nonneg_part, filter, any, take, drop, order_by,
}
use fmxevolution_go.Webhook.Model.{WebhookEndpoint, WebhookDelivery, WebhookDeliveryFilter}

abbrev pub status_pending : String
status_pending = "pending"

abbrev pub status_delivered : String
status_delivered = "delivered"

abbrev pub status_retrying : String
status_retrying = "retrying"

abbrev pub status_failed : String
status_failed = "failed"

-- `First(&endpoint, "tenant_id = ? AND id = ?")`
unfoldable pub find_endpoint : String → String → List WebhookEndpoint → Option WebhookEndpoint
find_endpoint tenant i [] = none
find_endpoint tenant i (e ∷ es) =
    let rest = find_endpoint tenant i es in
    if str_eq e.tenant_id tenant && str_eq e.id i then some e else rest

-- The flags carry the tag `default:true`: gorm puts the default in the place of a zero value, in the
-- row and in the caller's record.
unfoldable pub insert_endpoint :
    String → Time → WebhookEndpoint → List WebhookEndpoint → WebhookEndpoint × List WebhookEndpoint
insert_endpoint id now e rows =
    let made = record e {
      id = id;
      created_at = now;
      inbound_enabled = if e.inbound_enabled then e.inbound_enabled else true;
      outbound_enabled = if e.outbound_enabled then e.outbound_enabled else true;
    } in
    (made, rows ++ made ∷ [])

-- `ORDER BY created_at DESC`
abbrev pub newer_endpoint : WebhookEndpoint → WebhookEndpoint → Bool
newer_endpoint a b = leb b.created_at a.created_at

unfoldable pub list_by_tenant : String → List WebhookEndpoint → List WebhookEndpoint
unfolding order_by
list_by_tenant tenant rows = order_by newer_endpoint (filter (λ e. str_eq e.tenant_id tenant) rows)

unfoldable pub has_delivery : String → WebhookDelivery → Bool
has_delivery id d = str_eq d.id id

-- `Save`: the row with the identifier is replaced; a record that has none goes in.
unfoldable pub replace_delivery : WebhookDelivery → List WebhookDelivery → List WebhookDelivery
unfolding has_delivery
replace_delivery new [] = []
replace_delivery new (d ∷ ds) =
    let rest = replace_delivery new ds in if has_delivery new.id d then new ∷ rest else d ∷ rest

unfoldable pub save_delivery : WebhookDelivery → List WebhookDelivery → List WebhookDelivery
unfolding replace_delivery has_delivery
save_delivery new rows =
    if any (has_delivery new.id) rows then replace_delivery new rows else rows ++ new ∷ []

-- `ORDER BY created_at DESC`
abbrev pub newer_delivery : WebhookDelivery → WebhookDelivery → Bool
newer_delivery a b = leb b.created_at a.created_at

abbrev pub delivery_limit : WebhookDeliveryFilter → ℕ
delivery_limit f =
    let n = nonneg_part f.limit in if not (is_pos f.limit) || ltb 500 n then 100 else n

-- A part of the filter that is empty matches every row.
abbrev pub filter_matches : String → String → Bool
filter_matches wanted column = str_eq wanted "" || str_eq column wanted

unfoldable pub list_deliveries :
    String → WebhookDeliveryFilter → List WebhookDelivery → List WebhookDelivery
unfolding order_by
list_deliveries tenant f rows =
    let test : WebhookDelivery → Bool = λ d.
      str_eq d.tenant_id tenant
      && filter_matches f.endpoint_id d.endpoint_id
      && filter_matches f.status d.status
      && filter_matches f.event_type d.event_type in
    take (delivery_limit f)
      (drop (nonneg_part f.offset) (order_by newer_delivery (filter test rows)))

-- The rows that `HasRecentDelivery` counts.
unfoldable pub is_recent : String → String → String → String → Time → WebhookDelivery → Bool
is_recent tenant direction event msg since d =
    str_eq d.tenant_id tenant
    && str_eq d.direction direction
    && str_eq d.event_type event
    && str_eq d.message_id msg
    && leb since d.created_at

unfoldable pub has_recent_delivery :
    String → String → String → String → Time → List WebhookDelivery → Bool
unfolding is_recent
has_recent_delivery tenant direction event msg since rows =
    not (str_eq msg "") && any (is_recent tenant direction event msg since) rows

abbrev pub is_due : Time → WebhookDelivery → Bool
is_due now d =
    str_eq d.status status_retrying
    && elim d.next_attempt_at [ none ↦ false | some at ↦ leb at now ]

-- `ORDER BY next_attempt_at ASC`, for rows that have one
abbrev pub earlier_retry : WebhookDelivery → WebhookDelivery → Bool
earlier_retry a b = elim a.next_attempt_at [
  | none ↦ true
  | some s ↦ elim b.next_attempt_at [ none ↦ true | some t ↦ leb s t ]
]

unfoldable pub list_due_retries : Time → ℕ → List WebhookDelivery → List WebhookDelivery
unfolding order_by
list_due_retries now limit rows = take limit (order_by earlier_retry (filter (is_due now) rows))
