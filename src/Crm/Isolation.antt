-- ===== src/Crm/Isolation.antt =====
-- That what is done for one tenant leaves the rows of the others alone.
use fmxevolution_go.Base.{
  ℕ, String, true, ◌||◌, ◌≡◌, refl, sym, subst, ◌∙◌, inl, inr, if-cases, Bool-cases, Option-cases,
  Option, none, some, List, [], ◌∷◌, str_eq, eq_iff, is_blank, All, any, arith,
}
use fmxevolution_go.Base.Frame.{
  Keeps, Keeps-bind, Keeps-fail_if, Keeps-pure, Hoare, Hoare-bind, Hoare-kept, Hoare-map_err,
  Keeps-Hoare,
}
use fmxevolution_go.Crm.Model.{Contact, CreateContactInput, UpdateContactInput}
use fmxevolution_go.Crm.Repo.{
  Db, first, preload, find_contact, is_contact, insert_contact, save_contact,
}
use fmxevolution_go.Crm.Env.{Env, World, Req}
use fmxevolution_go.Crm.Service.{
  invalid, normalize_phone, record_not_found, refused, get_contact, replace_tags, add_note,
  add_notes, new_contact, create_contact, checked_phone, changed_contact, update_contact,
  assign_tags,
}
use fmxevolution_go.Base.Guards.{none-some, some-injective}
use fmxevolution_go.Crm.Foreign.{Foreign, foreign, Kept, IsFree, own-IsFree}
use fmxevolution_go.Crm.Foreign.Contacts.{insert_contact-Kept, save_contact-Kept}
use fmxevolution_go.Crm.Foreign.Links.{insert_tag-Kept, insert_note-Kept, link_tags-Kept}
use fmxevolution_go.Crm.Calls.{
  query-Hoare, write-Hoare, write-Keeps, get_contact-Keeps, ensure_phone_free-Keeps,
  replace_tags-Keeps, add_note-Keeps, add_notes-Keeps,
}

-- What the first row that passes the test is.
first-some :
    (tenant i : String) (cs : List Contact) (c : Contact)
    → first (is_contact tenant i) cs ≡ some c
    → (c.tenant_id ≡ tenant) × (any (is_contact tenant c.id) cs ≡ true)
unfolding first
first-some tenant i [] c h = absurd (none-some h)
first-some tenant i (d ∷ ds) c h = elim (Bool-cases (is_contact tenant i d)) [
  | inl hit ↦
      let it : first (is_contact tenant i) (d ∷ ds) ≡ some d = rw (first, hit) in
      subst (λ x. (x.tenant_id ≡ tenant) × (any (is_contact tenant x.id) (d ∷ ds) ≡ true))
        (some-injective (sym it ∙ h))
        ((eq_iff d.tenant_id tenant).0 (ground arith), ground (arith, (eq_iff d.id d.id).1 refl))
  | inr miss ↦
      let it : first (is_contact tenant i) (d ∷ ds) ≡ first (is_contact tenant i) ds =
        rw (first, miss) in
      let (own, there) = first-some tenant i ds c (sym it ∙ h) in (own, ground arith)
]

module _ (env : Env) (tenant : String) (f : Foreign) where
  -- The others have `f`.
  abbrev pub Isolated : World → Type 0
  Isolated w = Kept tenant f w.db

  replace_tags-Isolated :
      (i : String) (tags : Option (List String)) → Keeps Isolated (replace_tags env tenant i tags)
  replace_tags-Isolated =
      replace_tags-Keeps env tenant (Kept tenant f) (insert_tag-Kept tenant env.lower f)
        (insert_note-Kept tenant f) (link_tags-Kept tenant f)

  add_note-Isolated : (i body : String) → Keeps Isolated (add_note env tenant i body)
  add_note-Isolated =
      add_note-Keeps env tenant (Kept tenant f) (insert_tag-Kept tenant env.lower f)
        (insert_note-Kept tenant f) (link_tags-Kept tenant f)

  add_notes-Isolated :
      (i : String) (bodies : List String) → Keeps Isolated (add_notes env tenant i bodies)
  add_notes-Isolated =
      add_notes-Keeps env tenant (Kept tenant f) (insert_tag-Kept tenant env.lower f)
        (insert_note-Kept tenant f) (link_tags-Kept tenant f)

  new_contact-tenant :
      (input : CreateContactInput) (n : ℕ) → (new_contact env tenant input n).tenant_id ≡ tenant
  unfolding new_contact
  new_contact-tenant input n = refl

  create_contact-Keeps :
      (input : CreateContactInput) → Keeps Isolated (create_contact env tenant input)
  unfolding create_contact
  create_contact-Keeps input =
      Keeps-bind
        (Keeps-fail_if (str_eq tenant "" || is_blank input.name || is_blank input.phone)
          (invalid "name and phone are required"))
        λ _.
          Keeps-bind
            (Keeps-fail_if (str_eq (normalize_phone input.phone) "")
              (invalid "phone must contain digits"))
            λ _.
              Keeps-bind
                (ensure_phone_free-Keeps env tenant (Kept tenant f) (normalize_phone input.phone)
                  (λ _. true))
                λ _.
                  Keeps-bind
                    (write-Keeps env (Kept tenant f) (refused env) (new_contact env tenant input)
                      insert_contact
                      (λ n db db' h x.
                        insert_contact-Kept tenant f (new_contact env tenant input n) db db'
                          (new_contact-tenant input n) h x))
                    λ c. Keeps-bind (replace_tags-Isolated c.id input.tags) λ _.
                      Keeps-bind (add_notes-Isolated c.id input.notes)
                        λ _. get_contact-Keeps env tenant (Kept tenant f) c.id

  assign_tags-Keeps :
      (i : String) (tags : Option (List String)) → Keeps Isolated (assign_tags env tenant i tags)
  unfolding assign_tags
  assign_tags-Keeps i tags = Keeps-bind (get_contact-Keeps env tenant (Kept tenant f) i) λ _.
      Keeps-bind (replace_tags-Isolated i tags) λ _. get_contact-Keeps env tenant (Kept tenant f) i

  -- A contact of the tenant.
  abbrev IsOwn : Contact → Db → Type 0
  IsOwn c db = (c.tenant_id ≡ tenant) × IsFree tenant f c.id × Kept tenant f db

  find_contact-IsOwn :
      (i : String) (db : Db) (c : Contact)
      → Kept tenant f db
      → find_contact tenant i db ≡ some c
      → IsOwn c db
  unfolding find_contact preload
  find_contact-IsOwn i db c h e = elim (Option-cases (first (is_contact tenant i) db.contacts)) [
    | inl gone ↦
        let nothing : find_contact tenant i db ≡ none = rw (gone, find_contact) in
        absurd (none-some (sym nothing ∙ e))
    | inr (d, found) ↦
        let shown : find_contact tenant i db ≡ some (preload db d) = rw (found, find_contact) in
        let (own, there) = first-some tenant i db.contacts d found in
        subst (λ x. IsOwn x db) (some-injective (sym shown ∙ e))
          (own, own-IsFree tenant f d.id db.contacts h.1 there, h)
  ]

  get_contact-IsOwn :
      (i : String) → Hoare Isolated (get_contact env tenant i) (λ c w. IsOwn c w.db) Isolated
  unfolding get_contact
  get_contact-IsOwn i = Hoare-map_err _ (
      query-Hoare env (Kept tenant f) IsOwn record_not_found (find_contact tenant i)
        (find_contact-IsOwn i))

  checked_phone-Keeps :
      (P : Db → Type 0) (c : Contact) (input : UpdateContactInput)
      → Keeps (λ w. P w.db) (checked_phone env tenant c input)
  unfolding checked_phone
  checked_phone-Keeps P c input =
      if-cases {A = Req String} (Keeps (λ w. P w.db)) (str_eq input.phone "")
        (λ _. Keeps-pure c.phone)
        (λ _.
          Keeps-bind (Keeps-fail_if _ _)
            λ _. Keeps-bind (ensure_phone_free-Keeps env tenant P _ _) λ _. Keeps-pure _)

  update_contact-Keeps :
      (i : String) (input : UpdateContactInput) → Keeps Isolated (update_contact env tenant i input)
  unfolding update_contact changed_contact
  update_contact-Keeps i input =
      Keeps-Hoare {Q = λ _. Isolated} (λ a w h. h)
        (Hoare-bind (λ c w. IsOwn c w.db) (get_contact-IsOwn i)
          λ c.
            Hoare-bind (λ _ w. IsOwn c w.db)
              (Hoare-kept (λ w h. h.2) (checked_phone-Keeps (IsOwn c) c input))
              λ phone.
                Hoare-bind (λ _. Isolated)
                  (write-Hoare env (IsOwn c) (Kept tenant f) (refused env)
                    (λ _. changed_contact input phone c) save_contact (λ db h. h.2)
                    (λ n db db' h x.
                      save_contact-Kept tenant f (changed_contact input phone c) db db' h.0 h.1 h.2
                        x))
                  λ changed.
                    Hoare-kept (λ w h. h)
                      (Keeps-bind (replace_tags-Isolated changed.id input.tags)
                        λ _. get_contact-Keeps env tenant (Kept tenant f) changed.id))

-- What is asked of the service for one tenant.
pub data Operation : Type 0 where
  create : CreateContactInput → Operation
  update : String → UpdateContactInput → Operation
  note : String → String → Operation
  tag : String → Option (List String) → Operation

unfoldable pub operate : Env → String → Operation → World → World
unfolding create_contact update_contact add_note assign_tags
operate env tenant (create input) w = (create_contact env tenant input w).1
operate env tenant (update i input) w = (update_contact env tenant i input w).1
operate env tenant (note i body) w = (add_note env tenant i body w).1
operate env tenant (tag i tags) w = (assign_tags env tenant i tags w).1

unfoldable pub operate_all : Env → String → List Operation → World → World
unfolding operate
operate_all env tenant [] w = w
operate_all env tenant (o ∷ os) w = operate_all env tenant os (operate env tenant o w)

operate-Isolated :
    (env : Env) (tenant : String) (f : Foreign) (o : Operation) (w : World)
    → Kept tenant f w.db
    → Kept tenant f (operate env tenant o w).db
unfolding operate
operate-Isolated env tenant f (create input) w h =
    (create_contact-Keeps env tenant f input).kept w h
operate-Isolated env tenant f (update i input) w h =
    (update_contact-Keeps env tenant f i input).kept w h
operate-Isolated env tenant f (note i body) w h = (add_note-Isolated env tenant f i body).kept w h
operate-Isolated env tenant f (tag i tags) w h = (assign_tags-Keeps env tenant f i tags).kept w h

operate_all-Kept :
    (env : Env) (tenant : String) (f : Foreign) (os : List Operation) (w : World)
    → Kept tenant f w.db
    → Kept tenant f (operate_all env tenant os w).db
unfolding operate_all
operate_all-Kept env tenant f [] w h = h
operate_all-Kept env tenant f (o ∷ os) w h =
    operate_all-Kept env tenant f os (operate env tenant o w) (operate-Isolated env tenant f o w h)

-- Whatever contacts are created and changed, noted and tagged for one tenant, in any order and
-- whatever the database answers, the contacts, the tags and the notes of all other tenants stay as
-- they are, and so do the tags that their contacts have, where at the start no contact of the tenant
-- has the identifier of one of theirs.
pub operate_all-foreign :
    (env : Env) (tenant : String) (os : List Operation) (w : World)
    → All
        (λ c. str_eq c.tenant_id tenant ≡ true → IsFree tenant (foreign tenant w.db) c.id)
        w.db.contacts
    → foreign tenant (operate_all env tenant os w).db ≡ foreign tenant w.db
operate_all-foreign env tenant os w h =
    (operate_all-Kept env tenant (foreign tenant w.db) os w (refl, h)).0
