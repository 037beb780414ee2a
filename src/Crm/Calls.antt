-- ===== src/Crm/Calls.antt =====
-- What the calls of the contacts service keep of the tables, from what their statements keep.
use fmxevolution_go.Base.{
  ℕ, String, Bool, ◌≡◌, refl, inl, inr, if-cases, Option-cases, Option, none, some, List, [], ◌∷◌,
  is_blank, trim_space,
}
use fmxevolution_go.Base.Effect.{Out, ok, err}
use fmxevolution_go.Base.Frame.{
  Keeps, Keeps-bind, Keeps-fail_if, Keeps-pure, Keeps-map_err, Keeps-attempt, Hoare, Keeps-Hoare,
}
use fmxevolution_go.Domain.{GoError}
use fmxevolution_go.Crm.Model.{Tag, Note, Contact}
use fmxevolution_go.Crm.Repo.{
  Db, first, find_contact, has_phone, has_name, insert_tag, insert_note, link_tags,
}
use fmxevolution_go.Crm.Env.{Env, World, Req, query, write}
use fmxevolution_go.Crm.Service.{
  record_not_found, refused, default_tag_color, get_contact, judge, ensure_phone_free, or_new_tag,
  find_or_create_tag, tag_ids, assign_tags_call, replace_tags, add_note, add_notes,
}

module _ (env : Env) where
  pub query-Keeps :
      {A : Type 0} (P : Db → Type 0) (missing : GoError) (f : Db → Option A)
      → Keeps (λ w. P w.db) (query env missing f)
  unfolding query
  query-Keeps P missing f = record {
    kept = λ w h. elim (Option-cases (env.db_fault w.tick)) [
      | inr (e, bad) ↦ rw (bad, query) h
      | inl fine ↦ elim (Option-cases (f w.db)) [
        | inl gone ↦ rw (fine, query, gone) h
        | inr (a, found) ↦ rw (fine, query, found) h
      ]
    ];
  }

  pub query-Hoare :
      {A : Type 0} (P : Db → Type 0) (Q : A → Db → Type 0) (missing : GoError) (f : Db → Option A)
      → ((db : Db) (a : A) → P db → f db ≡ some a → Q a db)
      → Hoare (λ w. P w.db) (query env missing f) (λ a w. Q a w.db) (λ w. P w.db)
  unfolding query
  query-Hoare P Q missing f step = record {
    leaves = λ w h. elim (Option-cases (env.db_fault w.tick)) [
      | inr (e, bad) ↦ rw (bad, query) h
      | inl fine ↦ elim (Option-cases (f w.db)) [
        | inl gone ↦ rw (fine, query, gone) h
        | inr (a, found) ↦ rw (fine, query, found) (step w.db a h found)
      ]
    ];
  }

  pub write-Hoare :
      {A : Type 0} (Pre P : Db → Type 0) (e : GoError) (make : ℕ → A) (f : A → Db → Option Db)
      → ((db : Db) → Pre db → P db)
      → ((n : ℕ) (db db' : Db) → Pre db → f (make n) db ≡ some db' → P db')
      → Hoare (λ w. Pre w.db) (write env e make f) (λ _ w. P w.db) (λ w. P w.db)
  unfolding write
  write-Hoare Pre P e make f weaken step = record {
    leaves = λ w h. elim (Option-cases (env.db_fault w.tick)) [
      | inr (e, bad) ↦ rw (bad, write) (weaken w.db h)
      | inl fine ↦ elim (Option-cases (f (make w.tick) w.db)) [
        | inl no_row ↦ rw (fine, write, no_row) (weaken w.db h)
        | inr (db, done) ↦ rw (fine, write, done) (step w.tick w.db db h done)
      ]
    ];
  }

  pub write-Keeps :
      {A : Type 0} (P : Db → Type 0) (e : GoError) (make : ℕ → A) (f : A → Db → Option Db)
      → ((n : ℕ) (db db' : Db) → P db → f (make n) db ≡ some db' → P db')
      → Keeps (λ w. P w.db) (write env e make f)
  write-Keeps P e make f step = Keeps-Hoare (λ a w h. h) (write-Hoare P P e make f (λ db h. h) step)

pub get_contact-Keeps :
    (env : Env) (tenant : String) (P : Db → Type 0) (i : String)
    → Keeps (λ w. P w.db) (get_contact env tenant i)
unfolding get_contact
get_contact-Keeps env tenant P i =
    Keeps-map_err _ (query-Keeps env P record_not_found (find_contact tenant i))

pub ensure_phone_free-Keeps :
    (env : Env) (tenant : String) (P : Db → Type 0) (phone : String) (taken : Contact → Bool)
    → Keeps (λ w. P w.db) (ensure_phone_free env tenant phone taken)
unfolding ensure_phone_free judge
ensure_phone_free-Keeps env tenant P phone taken =
    Keeps-bind
      (Keeps-attempt
        (query-Keeps env P record_not_found (λ db. first (has_phone tenant phone) db.contacts)))
      judged
  where
    judged : (found : Out GoError Contact) → Keeps (λ w. P w.db) (judge taken found)
    judged (ok c) = Keeps-fail_if _ _
    judged (err e) = Keeps-fail_if _ _

module _ (env : Env) (tenant : String) (P : Db → Type 0)
    (tagged : (t : Tag) (db db' : Db)
      → t.tenant_id ≡ tenant
      → P db
      → insert_tag env.lower t db ≡ some db'
      → P db')
    (noted : (n : Note) (db db' : Db)
      → n.tenant_id ≡ tenant
      → P db
      → insert_note n db ≡ some db'
      → P db')
    (linked : (i : String) (ids : List String) (db db' : Db)
      → P db
      → link_tags tenant i ids db ≡ some db'
      → P db') where
  -- `P` holds of the tables.
  abbrev Holds : World → Type 0
  Holds w = P w.db

  pub find_or_create_tag-Keeps : (name : String) → Keeps Holds (find_or_create_tag env tenant name)
  unfolding find_or_create_tag or_new_tag
  find_or_create_tag-Keeps name =
      Keeps-bind
        (Keeps-attempt (
          query-Keeps env P record_not_found
            (λ db. first (has_name env.lower tenant name) db.tags)))
        made
    where
      make : ℕ → Tag
      make n = record {
        id = env.new_id n;
        tenant_id = tenant;
        name = name;
        color = default_tag_color name;
      }

      made : (found : Out GoError Tag) → Keeps Holds (or_new_tag env tenant name found)
      made (ok t) = Keeps-pure t
      made (err e) = Keeps-bind (Keeps-fail_if _ _) λ _.
          write-Keeps env P (refused env) make (insert_tag env.lower)
            (λ n db db' h x. tagged (make n) db db' refl h x)

  pub tag_ids-Keeps : (names : List String) → Keeps Holds (tag_ids env tenant names)
  unfolding tag_ids
  tag_ids-Keeps [] = Keeps-pure []
  tag_ids-Keeps (raw ∷ raws) =
      if-cases {A = Req (List String)} (Keeps Holds) (is_blank raw) (λ _. tag_ids-Keeps raws)
        (λ _.
          Keeps-bind (find_or_create_tag-Keeps (trim_space raw))
            λ tag. Keeps-bind (tag_ids-Keeps raws) λ ids. Keeps-pure (tag.id ∷ ids))

  pub replace_tags-Keeps :
      (i : String) (tags : Option (List String)) → Keeps Holds (replace_tags env tenant i tags)
  unfolding replace_tags assign_tags_call
  replace_tags-Keeps i none = Keeps-pure tt
  replace_tags-Keeps i (some tags) = Keeps-bind (tag_ids-Keeps tags) λ ids.
      write-Keeps env P record_not_found (λ n. tt) (λ _. link_tags tenant i ids)
        (λ n db db' h x. linked i ids db db' h x)

  pub add_note-Keeps : (i body : String) → Keeps Holds (add_note env tenant i body)
  unfolding add_note
  add_note-Keeps i body = Keeps-bind (Keeps-fail_if _ _) λ _.
      Keeps-bind (get_contact-Keeps env tenant P i) λ _.
        write-Keeps env P (refused env) make insert_note
          (λ n db db' h x. noted (make n) db db' refl h x)
    where
      make : ℕ → Note
      make n = record {
        id = env.new_id n;
        tenant_id = tenant;
        contact_id = i;
        body = trim_space body;
      }

  pub add_notes-Keeps :
      (i : String) (bodies : List String) → Keeps Holds (add_notes env tenant i bodies)
  unfolding add_notes
  add_notes-Keeps i [] = Keeps-pure tt
  add_notes-Keeps i (body ∷ bodies) =
      Keeps-bind (add_note-Keeps i body) λ _. add_notes-Keeps i bodies
