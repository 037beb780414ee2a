-- ===== src/Crm/Stored.antt =====
-- That a contact that was created is read back as it was asked for.
use fmxevolution_go.Base.{
  ℕ, suc, String, true, ◌||◌, ◌≡◌, sym, ap, subst, subst₂, ◌∙◌, none, some, str_eq, is_blank,
  trim_space, to_lower, All,
}
use fmxevolution_go.Base.Effect.{ok, Triple, Triple-bind}
use fmxevolution_go.Base.Frame.{Keeps, Triple-kept, Keeps-fail_if}
use fmxevolution_go.Crm.Model.{Contact, CreateContactInput}
use fmxevolution_go.Crm.Repo.{Db, preload, find_contact, contact_row, insert_contact}
use fmxevolution_go.Crm.Env.{Env, World, Req, write}
use fmxevolution_go.Crm.Service.{
  invalid, normalize_phone, refused, get_contact, replace_tags, add_notes, new_contact,
  create_contact,
}
use fmxevolution_go.Crm.Calls.{ensure_phone_free-Keeps, replace_tags-Keeps, add_notes-Keeps}
use fmxevolution_go.Crm.Unique.{
  Unique, insert_contact-Unique, insert_tag-contacts, insert_note-contacts, link_tags-contacts,
  get_contact-found, get_contact-at, write-at, find_contact-Unique,
}

-- The contact is the one that was asked for, and is read back as it is.
abbrev pub ReadBack : Env → String → CreateContactInput → Contact → World → Type 0
ReadBack env tenant input c t =
    (find_contact tenant c.id t.db ≡ some c)
    × (c.tenant_id ≡ tenant)
    × (c.phone ≡ normalize_phone input.phone)
    × (c.name ≡ trim_space input.name)
    × (c.email ≡ to_lower (trim_space input.email))
    × (c.instance_id ≡ trim_space input.instance_id)

module _ (env : Env) (tenant : String) (input : CreateContactInput) where
  abbrev Made : Contact → World → Type 0
  Made k w = ((n : ℕ) × (k ≡ new_contact env tenant input n)) × Unique k w.db

  read-ReadBack :
      (k : Contact) → Triple (Made k) (get_contact env tenant k.id) (ReadBack env tenant input)
  unfolding new_contact preload
  read-ReadBack k = record {
    at = λ w h c t e.
        let (found, same) = get_contact-at env tenant k.id w c t e in
        let made = h.0.1 in
        let shown = find_contact-Unique tenant k c w.db h.1 found in
        (
          subst₂ (λ i db. find_contact tenant i db ≡ some c) (sym (ap (λ x. x.id) shown)) (sym same)
              found,
          ap (λ x. x.tenant_id) shown ∙ ap (λ x. x.tenant_id) made,
          ap (λ x. x.phone) shown ∙ ap (λ x. x.phone) made,
          ap (λ x. x.name) shown ∙ ap (λ x. x.name) made,
          ap (λ x. x.email) shown ∙ ap (λ x. x.email) made,
          ap (λ x. x.instance_id) shown ∙ ap (λ x. x.instance_id) made,
        );
  }

  insert-Made :
      Triple
        (λ _. Unit {0})
        (write env (refused env) (new_contact env tenant input) insert_contact)
        Made
  insert-Made = record {
    at = λ w h k t e.
        let (n, same, stored) =
          write-at env (refused env) (new_contact env tenant input) insert_contact w k t e in
        (
          (n, same),
          subst (λ x. Unique x t.db) (sym same)
              (insert_contact-Unique (new_contact env tenant input n) w.db t.db stored),
        );
  }

  module _ (k : Contact) where
    abbrev kept : (db db' : Db) → db'.contacts ≡ db.contacts → Unique k db → Unique k db'
    kept db db' same h = subst (All (λ r. str_eq r.id k.id ≡ true → r ≡ contact_row k)) (sym same) h

    steady :
        {A : Type 0} {m : Req A} → Keeps (λ w. Unique k w.db) m → Triple (Made k) m (λ _. Made k)
    steady keeps = record { at = λ w h a t e. (h.0, (Triple-kept keeps).at w h.1 a t e) }

    replace_tags-Made : Triple (Made k) (replace_tags env tenant k.id input.tags) (λ _. Made k)
    replace_tags-Made = steady (
        replace_tags-Keeps env tenant (Unique k)
          (λ t db db' own h e. kept db db' (insert_tag-contacts env.lower t db db' e) h)
          (λ n db db' own h e. kept db db' (insert_note-contacts n db db' e) h)
          (λ i ids db db' h e. kept db db' (link_tags-contacts tenant i ids db db' e) h) k.id
          input.tags)

    add_notes-Made : Triple (Made k) (add_notes env tenant k.id input.notes) (λ _. Made k)
    add_notes-Made = steady (
        add_notes-Keeps env tenant (Unique k)
          (λ t db db' own h e. kept db db' (insert_tag-contacts env.lower t db db' e) h)
          (λ n db db' own h e. kept db db' (insert_note-contacts n db db' e) h)
          (λ i ids db db' h e. kept db db' (link_tags-contacts tenant i ids db db' e) h) k.id
          input.notes)

  create_contact-ReadBack :
      Triple (λ _. Unit {0}) (create_contact env tenant input) (ReadBack env tenant input)
  unfolding create_contact
  create_contact-ReadBack =
      Triple-bind (λ _ _. Unit {0})
        (Triple-kept (
          Keeps-fail_if (str_eq tenant "" || is_blank input.name || is_blank input.phone)
            (invalid "name and phone are required")))
        λ _.
          Triple-bind (λ _ _. Unit {0})
            (Triple-kept (
              Keeps-fail_if (str_eq (normalize_phone input.phone) "")
                (invalid "phone must contain digits")))
            λ _.
              Triple-bind (λ _ _. Unit {0})
                (Triple-kept (
                  ensure_phone_free-Keeps env tenant (λ _. Unit {0}) (normalize_phone input.phone)
                    (λ _. true)))
                λ _. Triple-bind Made insert-Made λ k.
                  Triple-bind (λ _. Made k) (replace_tags-Made k)
                    λ _. Triple-bind (λ _. Made k) (add_notes-Made k) λ _. read-ReadBack k

-- A contact that was created without an error has the name, the e-mail address and the instance of
-- the request without white space around them, the address in lower case, and the digits of its
-- phone; and where the database accepts the call, reading it again answers the same contact, with its
-- tags and notes, and changes no table.
pub get_contact-create_contact :
    (env : Env) (tenant : String) (input : CreateContactInput) (w : World) (c : Contact) (t : World)
    → create_contact env tenant input w ≡ (ok c, t)
    → env.db_fault t.tick ≡ none
    → (get_contact env tenant c.id t ≡ (ok c, record t { tick = suc t.tick }))
      × ReadBack env tenant input c t
get_contact-create_contact env tenant input w c t h fine =
    let back = (create_contact-ReadBack env tenant input).at w tt c t h in
    (get_contact-found env tenant c.id t c fine back.0, back)
