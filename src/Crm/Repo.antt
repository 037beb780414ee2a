-- ===== src/Crm/Repo.antt =====
-- The tables of contacts, tags and notes, and the statements that internal/repository/gorm.go runs on
-- them. A statement that breaks a unique index, or a primary key, is none. `lower` of the database is
-- a parameter. Rows are in the order in which they went in.
use fmxevolution_go.Base.{
  String, Bool, ◌&&◌, ◌||◌, not, Option, none, some, List, [], ◌∷◌, ◌++◌, map, str_eq, leb,
  if◌then◌else◌, filter, any, order_by,
}
use fmxevolution_go.Crm.Model.{Tag, Note, Contact, Link}

pub record Db : Type 0 where
  pub contacts : List Contact
  pub tags : List Tag
  pub notes : List Note
  pub links : List Link

-- `First(…)`
unfoldable pub first : {A : Type 0} → (A → Bool) → List A → Option A
first p [] = none
first p (x ∷ xs) = let rest = first p xs in if p x then some x else rest

abbrev pub is_contact : String → String → Contact → Bool
is_contact tenant i c = str_eq c.tenant_id tenant && str_eq c.id i

abbrev pub has_phone : String → String → Contact → Bool
has_phone tenant phone c = str_eq c.tenant_id tenant && str_eq c.phone phone

abbrev pub has_name : (String → String) → String → String → Tag → Bool
has_name lower tenant name t = str_eq t.tenant_id tenant && str_eq (lower t.name) (lower name)

-- `Preload("Tags").Preload("Notes")`
unfoldable pub preload : Db → Contact → Contact
preload db c = record c {
  tags = filter (λ t. any (λ l. str_eq l.contact_id c.id && str_eq l.tag_id t.id) db.links) db.tags;
  notes = filter (λ n. str_eq n.contact_id c.id) db.notes;
}

unfoldable pub find_contact : String → String → Db → Option Contact
unfolding first preload
find_contact tenant i db = elim (first (is_contact tenant i) db.contacts) [
  | none ↦ none
  | some c ↦ some (preload db c)
]

-- `ORDER BY created_at DESC`
abbrev pub newer_contact : Contact → Contact → Bool
newer_contact a b = leb b.created_at a.created_at

unfoldable pub contacts_of : String → Db → List Contact
unfolding preload order_by
contacts_of tenant db =
    map (preload db) (order_by newer_contact (filter (λ c. str_eq c.tenant_id tenant) db.contacts))

abbrev pub contact_row : Contact → Contact
contact_row c = record c { tags = []; notes = [] }

unfoldable pub insert_contact : Contact → Db → Option Db
insert_contact c db =
    if any (λ d. str_eq d.id c.id || has_phone c.tenant_id c.phone d) db.contacts
    then none
    else some (record db { contacts = db.contacts ++ contact_row c ∷ [] })

unfoldable pub replace_contact : Contact → List Contact → List Contact
replace_contact new [] = []
replace_contact new (c ∷ cs) =
    let rest = replace_contact new cs in
    if str_eq c.id new.id then contact_row new ∷ rest else c ∷ rest

-- `Save` of a contact that was read: its tags and notes go back as they were read.
unfoldable pub save_contact : Contact → Db → Option Db
unfolding replace_contact
save_contact new db =
    if any (λ c. not (str_eq c.id new.id) && has_phone new.tenant_id new.phone c) db.contacts
    then none
    else some (record db { contacts = replace_contact new db.contacts })

unfoldable pub insert_tag : (String → String) → Tag → Db → Option Db
insert_tag lower t db =
    if any (λ u. str_eq u.id t.id || has_name lower t.tenant_id t.name u) db.tags
    then none
    else some (record db { tags = db.tags ++ t ∷ [] })

unfoldable pub insert_note : Note → Db → Option Db
insert_note n db =
    if any (λ m. str_eq m.id n.id) db.notes
    then none
    else some (record db { notes = db.notes ++ n ∷ [] })

-- `Association("Tags").Replace(tags)`
unfoldable pub replace_links : String → List Tag → List Link → List Link
replace_links i tags links =
    filter (λ l. not (str_eq l.contact_id i)) links
    ++ map (λ t. record { contact_id = i; tag_id = t.id }) tags

-- None where the contact is not there.
unfoldable pub link_tags : String → String → List String → Db → Option Db
unfolding replace_links
link_tags tenant i ids db =
    let chosen : List Tag =
      filter (λ t. str_eq t.tenant_id tenant && any (str_eq t.id) ids) db.tags in
    if any (is_contact tenant i) db.contacts
    then some (record db { links = replace_links i chosen db.links })
    else none
