-- ===== src/Crm/Foreign/Contacts.antt =====
-- The statements on contacts of one tenant leave the rows of the others alone.
use fmxevolution_go.Base.{
  String, true, false, not, ◌&&◌, ◌||◌, ◌≡◌, refl, sym, ap, subst, if-cases, some, List, [], ◌∷◌,
  ◌++◌, filter, any, str_eq, eq_iff, All, All-append, arith,
}
use fmxevolution_go.Base.Guards.{guarded, filter-append_own, any-filter-false, any-or_false}
use fmxevolution_go.Crm.Model.{Contact}
use fmxevolution_go.Crm.Repo.{
  Db, contact_row, has_phone, insert_contact, replace_contact, save_contact,
}
use fmxevolution_go.Crm.Foreign.{Foreign, is_foreign, IsFree, Kept, foreign-same}

module _ (tenant : String) where
  pub insert_contact-Kept :
      (f : Foreign) (c : Contact) (db db' : Db)
      → c.tenant_id ≡ tenant
      → Kept tenant f db
      → insert_contact c db ≡ some db'
      → Kept tenant f db'
  unfolding insert_contact
  insert_contact-Kept f c db db' own (same, free) e =
      let (new, stored) =
        guarded (any (λ d. str_eq d.id c.id || has_phone c.tenant_id c.phone d) db.contacts) e in
      let foreign_no : is_foreign tenant c.tenant_id ≡ false =
        ground (arith, (eq_iff c.tenant_id tenant).1 own) in
      let unused : IsFree tenant f c.id =
        subst (λ cs. any (λ d. str_eq d.id c.id) cs ≡ false) (ap (λ g. g.contacts) same)
          (any-filter-false (λ d. str_eq d.id c.id) (λ d. is_foreign tenant d.tenant_id) db.contacts
            (any-or_false (λ d. str_eq d.id c.id) (has_phone c.tenant_id c.phone) db.contacts
              new)) in
      subst (Kept tenant f) stored (
        foreign-same tenant f db (record db { contacts = db.contacts ++ contact_row c ∷ [] })
            (filter-append_own (λ d. is_foreign tenant d.tenant_id) db.contacts (contact_row c)
              foreign_no)
            refl refl refl same,
        All-append _ db.contacts _ free ((λ _. unused), tt),
      )

  replace_contact-foreign :
      (new : Contact) (cs : List Contact)
      → new.tenant_id ≡ tenant
      → any (λ c. str_eq c.id new.id) (filter (λ c. is_foreign tenant c.tenant_id) cs) ≡ false
      → filter (λ c. is_foreign tenant c.tenant_id) (replace_contact new cs)
        ≡ filter (λ c. is_foreign tenant c.tenant_id) cs
  unfolding replace_contact
  replace_contact-foreign new [] own h = refl
  replace_contact-foreign new (c ∷ cs) own h = ground (
    arith,
    replace_contact-foreign new cs own (ground arith),
    (eq_iff new.tenant_id tenant).1 own,
  )

  replace_contact-IsFree :
      (f : Foreign) (new : Contact) (cs : List Contact)
      → IsFree tenant f new.id
      → All (λ c. str_eq c.tenant_id tenant ≡ true → IsFree tenant f c.id) cs
      → All (λ c. str_eq c.tenant_id tenant ≡ true → IsFree tenant f c.id) (replace_contact new cs)
  unfolding replace_contact
  replace_contact-IsFree f new [] free h = tt
  replace_contact-IsFree f new (c ∷ cs) free h =
      if-cases (All (λ c. str_eq c.tenant_id tenant ≡ true → IsFree tenant f c.id))
        (str_eq c.id new.id) (λ _. ((λ _. free), replace_contact-IsFree f new cs free h.1))
        (λ _. (h.0, replace_contact-IsFree f new cs free h.1))

  pub save_contact-Kept :
      (f : Foreign) (new : Contact) (db db' : Db)
      → new.tenant_id ≡ tenant
      → IsFree tenant f new.id
      → Kept tenant f db
      → save_contact new db ≡ some db'
      → Kept tenant f db'
  unfolding save_contact
  save_contact-Kept f new db db' own unused (same, free) e =
      let (alone, stored) =
        guarded
          (any (λ c. not (str_eq c.id new.id) && has_phone new.tenant_id new.phone c) db.contacts)
          e in
      let absent =
        subst (λ cs. any (λ c. str_eq c.id new.id) cs ≡ false) (sym (ap (λ g. g.contacts) same))
          unused in
      subst (Kept tenant f) stored (
        foreign-same tenant f db (record db { contacts = replace_contact new db.contacts })
            (replace_contact-foreign new db.contacts own absent) refl refl refl same,
        replace_contact-IsFree f new db.contacts unused free,
      )
