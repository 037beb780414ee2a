-- ===== src/Crm/Foreign.antt =====
-- The rows of the other tenants.
pub mod Contacts
pub mod Links
use fmxevolution_go.Base.{
  String, Bool, true, false, not, ◌&&◌, ◌||◌, ◌≡◌, refl, sym, ap, subst, ◌∙◌, if◌then◌else◌, inl,
  inr, if-cases, Bool-cases, Option, none, some, List, [], ◌∷◌, ◌++◌, map, filter, any, str_eq,
  eq_iff, All, All-append, arith,
}
use fmxevolution_go.Base.Guards.{
  some-injective, none-some, guarded, filter-append_own, any-filter-false, any-or_false,
}
use fmxevolution_go.Crm.Model.{Tag, Note, Contact, Link}
use fmxevolution_go.Crm.Repo.{
  Db, has_name, is_contact, contact_row, has_phone, insert_contact, replace_contact, save_contact,
  insert_tag, insert_note, replace_links, link_tags,
}

-- What the other tenants have.
pub record Foreign : Type 0 where
  pub contacts : List Contact
  pub tags : List Tag
  pub notes : List Note
  pub links : List Link

module _ (tenant : String) where
  -- The rows of the other tenants, and the tags of their contacts.
  abbrev pub is_foreign : String → Bool
  is_foreign t = not (str_eq t tenant)

  abbrev pub foreign_contacts : Db → List Contact
  foreign_contacts db = filter (λ c. is_foreign c.tenant_id) db.contacts

  abbrev pub is_foreign_link : List Contact → Link → Bool
  is_foreign_link cs l = any (λ c. str_eq c.id l.contact_id) cs

  abbrev pub foreign : Db → Foreign
  foreign db = record {
    contacts = foreign_contacts db;
    tags = filter (λ t. is_foreign t.tenant_id) db.tags;
    notes = filter (λ n. is_foreign n.tenant_id) db.notes;
    links = filter (is_foreign_link (foreign_contacts db)) db.links;
  }

  -- An identifier that no contact of the others has.
  abbrev pub IsFree : Foreign → String → Type 0
  IsFree f i = any (λ c. str_eq c.id i) f.contacts ≡ false

  -- The others have `f`, and no contact of theirs has the identifier of one of the tenant's.
  abbrev pub Kept : Foreign → Db → Type 0
  Kept f db =
      (foreign db ≡ f) × All (λ c. str_eq c.tenant_id tenant ≡ true → IsFree f c.id) db.contacts

  pub foreign-same :
      (f : Foreign) (db db' : Db)
      → foreign_contacts db' ≡ foreign_contacts db
      → filter (λ t. is_foreign t.tenant_id) db'.tags ≡ filter (λ t. is_foreign t.tenant_id) db.tags
      → filter (λ n. is_foreign n.tenant_id) db'.notes
        ≡ filter (λ n. is_foreign n.tenant_id) db.notes
      → filter (is_foreign_link (foreign_contacts db)) db'.links
        ≡ filter (is_foreign_link (foreign_contacts db)) db.links
      → foreign db ≡ f
      → foreign db' ≡ f
  foreign-same f db db' c t n l h =
      assemble c t n (
        subst
          (λ cs.
            filter (is_foreign_link cs) db'.links
            ≡ filter (is_foreign_link (foreign_contacts db)) db.links)
          (sym c) l)
      ∙ h
    where
      assemble :
          {cs cs' : List Contact} {ts ts' : List Tag} {ns ns' : List Note} {ls ls' : List Link}
          → cs' ≡ cs
          → ts' ≡ ts
          → ns' ≡ ns
          → ls' ≡ ls
          → ◌≡◌ {A = Foreign}
              (record { contacts = cs'; tags = ts'; notes = ns'; links = ls' })
              (record { contacts = cs; tags = ts; notes = ns; links = ls })
      assemble c t n l = rw (c, t, n, l)

  -- A contact of the tenant that is there is none of the others'.
  pub own-IsFree :
      (f : Foreign) (i : String) (cs : List Contact)
      → All (λ c. str_eq c.tenant_id tenant ≡ true → IsFree f c.id) cs
      → any (is_contact tenant i) cs ≡ true
      → IsFree f i
  own-IsFree f i [] h k = absurd cc
  own-IsFree f i (c ∷ cs) h k = elim (Bool-cases (is_contact tenant i c)) [
    | inl hit ↦ subst (IsFree f) ((eq_iff c.id i).0 (ground arith)) (h.0 (ground arith))
    | inr miss ↦ own-IsFree f i cs h.1 (ground arith)
  ]
