-- ===== src/Broadcast/Listing.antt =====
-- The list of a broadcast's recipients, page by page: `normalizeRecipientListFilter` and
-- `totalPages` of internal/broadcast/service.go and `ListRecipientProgressPage` of
-- internal/repository/gorm.go. An `int` that has passed the checks is a natural number.
pub mod Pages
use Prim.Native.String.{len}
use fmxevolution_go.Base.{
  ℕ, zero, suc, ◌+◌, ◌-◌, ◌*◌, ◌/◌, ◌%◌, String, Bool, true, false, ◌&&◌, ◌||◌, Option, none, some,
  List, [], ◌∷◌, str_eq, leb, ltb, ◌==◌, if◌then◌else◌, or_else, ℤ, is_neg, nonneg_part, trim_space,
  to_lower, is_blank, concat, filter, length, take, drop, order_by,
}
use fmxevolution_go.Base.Effect.{Out, ok, err}
use fmxevolution_go.Domain.{Kind, GoError, domain_error}
use fmxevolution_go.Broadcast.Model.{
  BroadcastRecipientProgress, recipient_status_pending, recipient_status_sent,
  recipient_status_delivered, recipient_status_read, recipient_status_failed,
}
use fmxevolution_go.Broadcast.Repo.{of_broadcast, row_before}

abbrev pub default_broadcast_recipient_limit : ℕ
default_broadcast_recipient_limit = 50

abbrev pub max_broadcast_recipient_limit : ℕ
max_broadcast_recipient_limit = 200

abbrev pub max_broadcast_recipient_page : ℕ
max_broadcast_recipient_page = 1000

abbrev pub max_broadcast_recipient_query_len : ℕ
max_broadcast_recipient_query_len = 100

pub record ListRecipientsInput : Type 0 where
  pub page : ℤ
  pub limit : ℤ
  pub status : String
  pub query : String

-- `repository.BroadcastRecipientProgressFilter`
pub record BroadcastRecipientProgressFilter : Type 0 where
  pub status : String
  pub query : String
  pub page : ℕ
  pub limit : ℕ

unfoldable pub is_recipient_status : String → Bool
is_recipient_status s =
    str_eq s ""
    || str_eq s recipient_status_pending
    || str_eq s recipient_status_sent
    || str_eq s recipient_status_delivered
    || str_eq s recipient_status_read
    || str_eq s recipient_status_failed

-- The value of the page, and of the limit, after the defaults and the cap.
abbrev page_of : ℕ → ℕ
page_of n = if n == 0 then 1 else n

abbrev limit_of : ℕ → ℕ
limit_of n =
    let limit = if n == 0 then default_broadcast_recipient_limit else n in
    if ltb max_broadcast_recipient_limit limit then max_broadcast_recipient_limit else limit

unfoldable pub normalize_recipient_list_filter :
    ListRecipientsInput → Out GoError BroadcastRecipientProgressFilter
normalize_recipient_list_filter input =
    let status = to_lower (trim_space input.status) in
    let query = trim_space input.query in
    let page = page_of (nonneg_part input.page) in
    if is_neg input.page
    then err (domain_error Kind.validation "page must be greater than zero")
    else if ltb max_broadcast_recipient_page page
    then err (domain_error Kind.validation "page cannot exceed 1000")
    else if is_neg input.limit
    then err (domain_error Kind.validation "limit must be greater than zero")
    else if is_recipient_status status
    then if ltb max_broadcast_recipient_query_len (len query)
      then err (domain_error Kind.validation "query cannot exceed 100 characters")
      else ok (record {
        status = status;
        query = query;
        page = page;
        limit = limit_of (nonneg_part input.limit);
      })
    else err (domain_error Kind.validation "unsupported recipient status filter")

unfoldable pub total_pages : ℕ → ℕ → ℕ
total_pages total limit =
    let pages = total / limit in
    if total == 0 || limit == 0 then 0 else if total % limit == 0 then pages else pages + 1

-- The `WHERE` clauses of a page; `ilike` is the database's.
unfoldable pub page_matches :
    (String → String → Bool) → BroadcastRecipientProgressFilter → BroadcastRecipientProgress → Bool
page_matches ilike f r =
    let like = concat ("%" ∷ trim_space f.query ∷ "%" ∷ []) in
    let contact : Bool = elim r.contact_id [ none ↦ false | some c ↦ ilike c like ] in
    (is_blank f.status || str_eq r.delivery_status (trim_space f.status))
    && (is_blank f.query || ilike r.phone like || contact)

-- The rows that the filter lets through, in order, and their number.
unfoldable pub matching_rows :
    (String → String → Bool)
    → (String → String → Bool)
    → String
    → String
    → BroadcastRecipientProgressFilter
    → List BroadcastRecipientProgress
    → List BroadcastRecipientProgress
unfolding order_by page_matches
matching_rows ilike phone_le tenant job f rows =
    order_by (row_before phone_le)
      (filter (λ r. of_broadcast tenant job r && page_matches ilike f r) rows)

-- `Limit(limit).Offset((page - 1) * limit)`
unfoldable pub page_rows :
    BroadcastRecipientProgressFilter
    → List BroadcastRecipientProgress
    → List BroadcastRecipientProgress
page_rows f rows =
    let page = if f.page == 0 then 1 else f.page in
    let limit = if f.limit == 0 then 50 else f.limit in take limit (drop ((page - 1) * limit) rows)

unfoldable pub list_recipient_progress_page :
    (String → String → Bool)
    → (String → String → Bool)
    → String
    → String
    → BroadcastRecipientProgressFilter
    → List BroadcastRecipientProgress
    → List BroadcastRecipientProgress × ℕ
unfolding matching_rows page_rows
list_recipient_progress_page ilike phone_le tenant job f rows =
    let all = matching_rows ilike phone_le tenant job f rows in (page_rows f all, length all)
