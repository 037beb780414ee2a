-- ===== src/Crm/Unique.antt =====
-- What the calls do to the row of a contact whose identifier no other row has, and what they answer.
use fmxevolution_go.Base.{
  ℕ, suc, String, true, false, ◌||◌, ◌≡◌, refl, sym, ap, subst, ◌∙◌, inl, inr, Bool-cases,
  Option-cases, Option, none, some, List, [], ◌∷◌, str_eq, All, All-append, any, arith,
}
use fmxevolution_go.Base.Effect.{ok, err, ok-injective, ok-err, map_err}
use fmxevolution_go.Domain.{Kind, GoError, domain_error, plain_error}
use fmxevolution_go.Crm.Model.{Tag, Note, Contact}
use fmxevolution_go.Crm.Repo.{
  Db, first, preload, find_contact, has_phone, is_contact, contact_row, insert_contact, insert_tag,
  insert_note, link_tags,
}
use fmxevolution_go.Crm.Env.{Env, World, query, write}
use fmxevolution_go.Crm.Service.{get_contact}
use fmxevolution_go.Base.Guards.{none-some, some-injective, guarded}

abbrev missing_contact : GoError
missing_contact = domain_error Kind.not_found "contact not found"

-- The rows with the identifier of `c` are `c`.
abbrev pub Unique : Contact → Db → Type 0
Unique c db = All (λ r. str_eq r.id c.id ≡ true → r ≡ contact_row c) db.contacts

pub insert_contact-Unique :
    (c : Contact) (db db' : Db) → insert_contact c db ≡ some db' → Unique c db'
unfolding insert_contact
insert_contact-Unique c db db' e =
    let (new, stored) =
      guarded (any (λ d. str_eq d.id c.id || has_phone c.tenant_id c.phone d) db.contacts) e in
    subst (Unique c) stored (All-append _ db.contacts _ (others db.contacts new) ((λ _. refl), tt))
  where
    others :
        (ds : List Contact)
        → any (λ d. str_eq d.id c.id || has_phone c.tenant_id c.phone d) ds ≡ false
        → All (λ r. str_eq r.id c.id ≡ true → r ≡ contact_row c) ds
    others [] h = tt
    others (d ∷ ds) h = ((λ k. absurd (ground arith)), others ds (ground arith))

first-Unique :
    (tenant : String) (c d : Contact) (cs : List Contact)
    → All (λ r. str_eq r.id c.id ≡ true → r ≡ contact_row c) cs
    → first (is_contact tenant c.id) cs ≡ some d
    → d ≡ contact_row c
unfolding first
first-Unique tenant c d [] h e = absurd (none-some e)
first-Unique tenant c d (x ∷ xs) h e = elim (Bool-cases (is_contact tenant c.id x)) [
  | inl hit ↦
      let it : first (is_contact tenant c.id) (x ∷ xs) ≡ some x = rw (first, hit) in
      some-injective (sym e ∙ it) ∙ h.0 (ground arith)
  | inr miss ↦
      let it : first (is_contact tenant c.id) (x ∷ xs) ≡ first (is_contact tenant c.id) xs =
        rw (first, miss) in
      first-Unique tenant c d xs h.1 (sym it ∙ e)
]

pub insert_tag-contacts :
    (lower : String → String) (t : Tag) (db db' : Db)
    → insert_tag lower t db ≡ some db'
    → db'.contacts ≡ db.contacts
unfolding insert_tag
insert_tag-contacts lower t db db' e = sym (ap (λ x. x.contacts) (guarded _ e).1)

pub insert_note-contacts :
    (n : Note) (db db' : Db) → insert_note n db ≡ some db' → db'.contacts ≡ db.contacts
unfolding insert_note
insert_note-contacts n db db' e = sym (ap (λ x. x.contacts) (guarded _ e).1)

pub link_tags-contacts :
    (tenant i : String) (ids : List String) (db db' : Db)
    → link_tags tenant i ids db ≡ some db'
    → db'.contacts ≡ db.contacts
unfolding link_tags
link_tags-contacts tenant i ids db db' e =
    elim (Bool-cases (any (is_contact tenant i) db.contacts)) [
      | inl there ↦ ground arith
      | inr gone ↦ ground arith
    ]

pub get_contact-found :
    (env : Env) (tenant i : String) (w : World) (c : Contact)
    → env.db_fault w.tick ≡ none
    → find_contact tenant i w.db ≡ some c
    → get_contact env tenant i w ≡ (ok c, record w { tick = suc w.tick })
unfolding get_contact
get_contact-found env tenant i w c fine found =
    rw (get_contact, map_err, query, fine, found, query, fine, found)

get_contact-refused :
    (env : Env) (tenant i : String) (w : World) (e : String)
    → env.db_fault w.tick ≡ some e
    → get_contact env tenant i w ≡ (err missing_contact, record w { tick = suc w.tick })
unfolding get_contact
get_contact-refused env tenant i w e bad = rw (get_contact, map_err, query, bad, query, bad)

get_contact-gone :
    (env : Env) (tenant i : String) (w : World)
    → env.db_fault w.tick ≡ none
    → find_contact tenant i w.db ≡ none
    → get_contact env tenant i w ≡ (err missing_contact, record w { tick = suc w.tick })
unfolding get_contact
get_contact-gone env tenant i w fine gone =
    rw (get_contact, map_err, query, fine, gone, query, fine, gone)

pub get_contact-at :
    (env : Env) (tenant i : String) (w : World) (c : Contact) (t : World)
    → get_contact env tenant i w ≡ (ok c, t)
    → (find_contact tenant i w.db ≡ some c) × (t.db ≡ w.db)
get_contact-at env tenant i w c t h = elim (Option-cases (env.db_fault w.tick)) [
  | inr (e, bad) ↦ ok-err (ap (λ r. r.0) (sym h ∙ get_contact-refused env tenant i w e bad))
  | inl fine ↦ elim (Option-cases (find_contact tenant i w.db)) [
    | inl gone ↦ ok-err (ap (λ r. r.0) (sym h ∙ get_contact-gone env tenant i w fine gone))
    | inr (d, found) ↦
        let e = sym (get_contact-found env tenant i w d fine found) ∙ h in
        (found ∙ ap some (ok-injective (ap (λ r. r.0) e)), sym (ap (λ r. r.1.db) e))
  ]
]

pub write-at :
    {A : Type 0} (env : Env) (e : GoError) (make : ℕ → A) (f : A → Db → Option Db) (w : World)
    (a : A) (t : World)
    → write env e make f w ≡ (ok a, t)
    → (n : ℕ) × (a ≡ make n) × (f (make n) w.db ≡ some t.db)
unfolding write
write-at env e make f w a t h = elim (Option-cases (env.db_fault w.tick)) [
  | inr (x, bad) ↦ ok-err (ap (λ r. r.0) (sym h ∙ refused_by x bad))
  | inl fine ↦ elim (Option-cases (f (make w.tick) w.db)) [
    | inl none_made ↦ ok-err (ap (λ r. r.0) (sym h ∙ not_made fine none_made))
    | inr (db, made) ↦
        let x = sym (done fine db made) ∙ h in
        (w.tick, sym (ok-injective (ap (λ r. r.0) x)), made ∙ ap some (ap (λ r. r.1.db) x))
  ]
]
  where
    refused_by :
        (x : String)
        → env.db_fault w.tick ≡ some x
        → write env e make f w ≡ (err (plain_error x), record w { tick = suc w.tick })
    refused_by x bad = rw (bad, write)

    not_made :
        env.db_fault w.tick ≡ none
        → f (make w.tick) w.db ≡ none
        → write env e make f w ≡ (err e, record w { tick = suc w.tick })
    not_made fine gone = rw (fine, write, gone)

    done :
        env.db_fault w.tick ≡ none
        → (db : Db) → f (make w.tick) w.db ≡ some db
        → write env e make f w ≡ (ok (make w.tick), record w { db = db; tick = suc w.tick })
    done fine db made = rw (fine, write, made)

-- What is read of a contact whose row is unique.
pub find_contact-Unique :
    (tenant : String) (k c : Contact) (db : Db)
    → Unique k db
    → find_contact tenant k.id db ≡ some c
    → c ≡ preload db (contact_row k)
unfolding find_contact
find_contact-Unique tenant k c db u e =
    elim (Option-cases (first (is_contact tenant k.id) db.contacts)) [
      | inl gone ↦
          let nothing : find_contact tenant k.id db ≡ none = rw (gone, find_contact) in
          absurd (none-some (sym nothing ∙ e))
      | inr (d, found) ↦
          let shown : find_contact tenant k.id db ≡ some (preload db d) =
            rw (found, find_contact) in
          sym (some-injective (sym shown ∙ e))
          ∙ ap (preload db) (first-Unique tenant k d db.contacts u found)
    ]
