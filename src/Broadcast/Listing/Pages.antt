-- ===== src/Broadcast/Listing/Pages.antt =====
-- The pages of a list of recipients, and the bounds that a request is held to.
use Prim.Native.String.{len}
use native.Mathlib.Nat.{lt_of_mul-lt-mul_right, div-add-mod, mod-lt, zero-mul}
use fmxevolution_go.Base.{
  refl, ◌⊎◌, ◌∷◌, [], ℕ, zero, suc, ◌-◌, ◌*◌, ◌/◌, ◌%◌, ◌≤◌, ◌<◌, true, ◌≡◌, ap, ◌∙◌, List, [],
  ◌++◌, ◌==◌, Bool-cases, inl, inr, length, take, drop, take_all, length-take-le, take-append-drop,
  arith,
}
use fmxevolution_go.Base.Effect.{ok}
use fmxevolution_go.Broadcast.Model.{BroadcastRecipientProgress}
use fmxevolution_go.Broadcast.Listing.{
  ListRecipientsInput, BroadcastRecipientProgressFilter, page_rows, total_pages,
  is_recipient_status, normalize_recipient_list_filter, max_broadcast_recipient_page,
  max_broadcast_recipient_limit, max_broadcast_recipient_query_len,
}

-- The first `n` pages, one behind the other.
pub first_pages :
    BroadcastRecipientProgressFilter
    → List BroadcastRecipientProgress
    → ℕ
    → List BroadcastRecipientProgress
first_pages f rows zero = []
first_pages f rows (suc n) = first_pages f rows n ++ page_rows (record f { page = suc n }) rows

module _ (total limit : ℕ) (h : 0 < limit) (p : 0 < total) where
  total_pages_even : total % limit ≡ 0 → total_pages total limit ≡ total / limit
  unfolding total_pages
  total_pages_even e = ground arith

  total_pages_odd : 0 < total % limit → total_pages total limit ≡ suc (total / limit)
  unfolding total_pages
  total_pages_odd e = ground arith

  -- The least number of pages that has room for all.
  total_pages-least :
      (total ≤ total_pages total limit * limit) × ((total_pages total limit - 1) * limit < total)
  total_pages-least = elim (Bool-cases (total % limit == 0)) [
    | inl even ↦
        let e : total % limit ≡ 0 = ground arith in
        let q : 0 < total / limit = grind (arith, div-add-mod total limit) in
        let s : total / limit ≡ suc (total / limit - 1) = omega arith in
        rw (total_pages_even e) (
          omega (arith, div-add-mod total limit, e, h, ap (λ (k : ℕ). k * limit) s),
          omega (arith, div-add-mod total limit, e, h, ap (λ (k : ℕ). k * limit) s),
        )
    | inr odd ↦
        let e : 0 < total % limit = ground arith in
        let less : suc (total / limit) - 1 ≡ total / limit = omega arith in
        rw (total_pages_odd e) (
          omega (arith, div-add-mod total limit, mod-lt total h),
          omega (arith, div-add-mod total limit, e, ap (λ (k : ℕ). k * limit) less),
        )
  ]

total_pages-enough : (total limit : ℕ) → 0 < limit → total ≤ total_pages total limit * limit
total_pages-enough zero limit h = omega arith
total_pages-enough (suc n) limit h = (total_pages-least (suc n) limit h (omega arith)).0

total_pages_needed :
    (total limit : ℕ) → 0 < limit → 0 < total → (total_pages total limit - 1) * limit < total
total_pages_needed total limit h p = (total_pages-least total limit h p).1

-- No more pages are counted than have room for more rows than there are.
total_pages-le : (total limit n : ℕ) → 0 < limit → total ≤ n * limit → total_pages total limit ≤ n
total_pages-le zero limit n h room = unfold total_pages in omega arith
total_pages-le (suc k) limit n h room =
    let (a, b) = total_pages-least (suc k) limit h (omega arith) in
    let below : (total_pages (suc k) limit - 1) * limit < n * limit = omega arith in
    omega (arith, lt_of_mul-lt-mul_right limit below)

page_rows-take :
    (f : BroadcastRecipientProgressFilter) (rows : List BroadcastRecipientProgress) (n : ℕ)
    → 0 < f.limit
    → page_rows (record f { page = suc n }) rows ≡ take f.limit (drop (n * f.limit) rows)
unfolding page_rows
page_rows-take f rows n h = ground arith

first_pages-take :
    (f : BroadcastRecipientProgressFilter) (rows : List BroadcastRecipientProgress) (n : ℕ)
    → 0 < f.limit
    → first_pages f rows n ≡ take (n * f.limit) rows
unfolding first_pages
first_pages-take f rows zero h = rw zero-mul
first_pages-take f rows (suc n) h =
    rw (first_pages-take f rows n h, page_rows-take f rows n h, take-append-drop)
      (ap (λ k. take k rows) (grind arith))

last_needed :
    (f : BroadcastRecipientProgressFilter) (rows : List BroadcastRecipientProgress)
    → 0 < f.limit
    → (rows ≡ [])
      ⊎ (length (first_pages f rows (total_pages (length rows) f.limit - 1)) < length rows)
last_needed f [] h = inl refl
last_needed f (r ∷ rs) h = inr (
    rw (first_pages-take f (r ∷ rs) (total_pages (length (r ∷ rs)) f.limit - 1) h) (
      omega (
        arith,
        length-take-le ((total_pages (length (r ∷ rs)) f.limit - 1) * f.limit) (r ∷ rs),
        total_pages_needed (length (r ∷ rs)) f.limit h (omega arith),
      )))

-- Where there are no more rows than 1000 pages have room for, no page that is counted is refused, and
-- the pages from 1 to the number of pages that is reported, one behind the other, are all the rows
-- in their order, each once; and a number of pages smaller by one leaves rows out, where there are
-- any.
pub pages_complete :
    (f : BroadcastRecipientProgressFilter) (rows : List BroadcastRecipientProgress)
    → 0 < f.limit
    → length rows ≤ 1000 * f.limit
    → (total_pages (length rows) f.limit ≤ max_broadcast_recipient_page)
      × (first_pages f rows (total_pages (length rows) f.limit) ≡ rows)
      × ((rows ≡ [])
          ⊎ (length (first_pages f rows (total_pages (length rows) f.limit - 1)) < length rows))
pages_complete f rows h room = (
  total_pages-le (length rows) f.limit 1000 h room,
  first_pages-take f rows (total_pages (length rows) f.limit) h
      ∙ take_all _ rows (total_pages-enough (length rows) f.limit h),
  last_needed f rows h,
)

-- A request that is accepted asks for a page from 1 to 1000 and for 1 to 200 rows, with a known
-- status or none, and a query of at most 100 bytes.
pub normalize_recipient_list_filter_bounds :
    (input : ListRecipientsInput) (f : BroadcastRecipientProgressFilter)
    → normalize_recipient_list_filter input ≡ ok f
    → (1 ≤ f.page)
      × (f.page ≤ max_broadcast_recipient_page)
      × (1 ≤ f.limit)
      × (f.limit ≤ max_broadcast_recipient_limit)
      × (is_recipient_status f.status ≡ true)
      × (len f.query ≤ max_broadcast_recipient_query_len)
unfolding normalize_recipient_list_filter
normalize_recipient_list_filter_bounds input f h = ground arith
