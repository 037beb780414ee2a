-- ===== src/Crm/Foreign/Links.antt =====
-- The statements on tags, notes and links of one tenant leave the rows of the others alone.
use fmxevolution_go.Base.{
  String, false, ◌&&◌, ◌||◌, ◌≡◌, refl, sym, ap, subst, ◌∙◌, inl, inr, Bool-cases, none, some, List,
  [], ◌∷◌, ◌++◌, map, filter, any, str_eq, eq_iff, arith,
}
use fmxevolution_go.Base.Guards.{some-injective, none-some, guarded, filter-append_own}
use fmxevolution_go.Crm.Model.{Tag, Note, Contact, Link}
use fmxevolution_go.Crm.Repo.{
  Db, has_name, is_contact, insert_tag, insert_note, replace_links, link_tags,
}
use fmxevolution_go.Crm.Foreign.{
  Foreign, is_foreign, foreign_contacts, is_foreign_link, Kept, foreign-same, own-IsFree,
}

module _ (tenant : String) where
  pub insert_tag-Kept :
      (lower : String → String) (f : Foreign) (t : Tag) (db db' : Db)
      → t.tenant_id ≡ tenant
      → Kept tenant f db
      → insert_tag lower t db ≡ some db'
      → Kept tenant f db'
  unfolding insert_tag
  insert_tag-Kept lower f t db db' own (same, free) e =
      let (new, stored) =
        guarded (any (λ u. str_eq u.id t.id || has_name lower t.tenant_id t.name u) db.tags) e in
      let foreign_no : is_foreign tenant t.tenant_id ≡ false =
        ground (arith, (eq_iff t.tenant_id tenant).1 own) in
      subst (Kept tenant f) stored (
        foreign-same tenant f db (record db { tags = db.tags ++ t ∷ [] }) refl
            (filter-append_own (λ u. is_foreign tenant u.tenant_id) db.tags t foreign_no) refl refl
            same,
        free,
      )

  pub insert_note-Kept :
      (f : Foreign) (n : Note) (db db' : Db)
      → n.tenant_id ≡ tenant
      → Kept tenant f db
      → insert_note n db ≡ some db'
      → Kept tenant f db'
  unfolding insert_note
  insert_note-Kept f n db db' own (same, free) e =
      let (new, stored) = guarded (any (λ m. str_eq m.id n.id) db.notes) e in
      let foreign_no : is_foreign tenant n.tenant_id ≡ false =
        ground (arith, (eq_iff n.tenant_id tenant).1 own) in
      subst (Kept tenant f) stored (
        foreign-same tenant f db (record db { notes = db.notes ++ n ∷ [] }) refl refl
            (filter-append_own (λ m. is_foreign tenant m.tenant_id) db.notes n foreign_no) refl
            same,
        free,
      )

  replace_links-foreign :
      (cs : List Contact) (i : String) (tags : List Tag) (links : List Link)
      → any (λ c. str_eq c.id i) cs ≡ false
      → filter (is_foreign_link tenant cs) (replace_links i tags links)
        ≡ filter (is_foreign_link tenant cs) links
  unfolding replace_links
  replace_links-foreign cs i tags [] free = only_new tags
    where
      only_new :
          (ts : List Tag)
          → filter
              (is_foreign_link tenant cs)
              (map (λ t. record { contact_id = i; tag_id = t.id }) ts)
            ≡ []
      only_new [] = refl
      only_new (t ∷ ts) = rw free (only_new ts)
  replace_links-foreign cs i tags (l ∷ ls) free = elim (Bool-cases (str_eq l.contact_id i)) [
    | inl hit ↦
        let away : is_foreign_link tenant cs l ≡ false =
          subst (λ j. any (λ c. str_eq c.id j) cs ≡ false) (sym ((eq_iff l.contact_id i).0 hit))
            free in
        rw (hit, away) (replace_links-foreign cs i tags ls free)
    | inr miss ↦ rw (miss, replace_links-foreign cs i tags ls free)
  ]

  pub link_tags-Kept :
      (f : Foreign) (i : String) (ids : List String) (db db' : Db)
      → Kept tenant f db
      → link_tags tenant i ids db ≡ some db'
      → Kept tenant f db'
  unfolding link_tags
  link_tags-Kept f i ids db db' (same, free) e =
      elim (Bool-cases (any (is_contact tenant i) db.contacts)) [
        | inl there ↦
            let chosen : List Tag =
              filter (λ t. str_eq t.tenant_id tenant && any (str_eq t.id) ids) db.tags in
            let unused =
              subst (λ cs. any (λ c. str_eq c.id i) cs ≡ false) (sym (ap (λ g. g.contacts) same))
                (own-IsFree tenant f i db.contacts free there) in
            let stored : link_tags tenant i ids db
                ≡ some (record db { links = replace_links i chosen db.links }) =
              rw (there, link_tags) in
            subst (Kept tenant f) (some-injective (sym stored ∙ e)) (
              foreign-same tenant f db (record db { links = replace_links i chosen db.links }) refl
                  refl refl
                  (replace_links-foreign (foreign_contacts tenant db) i chosen db.links unused)
                  same,
              free,
            )
        | inr gone ↦
            let nothing : link_tags tenant i ids db ≡ none = rw (gone, link_tags) in
            absurd (none-some (sym nothing ∙ e))
      ]
