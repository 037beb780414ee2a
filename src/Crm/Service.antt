-- ===== src/Crm/Service.antt =====
-- `Service` of internal/crm/service.go.
use Prim.Native.Char.{Char, code}
use Prim.Native.String.{[], ◌∷◌}
use fmxevolution_go.Base.{
  ℕ, zero, suc, ◌+◌, ◌%◌, String, Bool, true, not, ◌&&◌, ◌||◌, Option, none, some, List, str_eq,
  leb, if◌then◌else◌, trim_space, to_lower, is_blank, keep_chars, contains,
}
use fmxevolution_go.Base.Effect.{Out, ok, err, pure, fail_if, attempt, map_err, ◌>>=◌, ◌>>◌}
use fmxevolution_go.Domain.{Kind, GoError, domain_error, plain_error}
use fmxevolution_go.Crm.Model.{Tag, Note, Contact, CreateContactInput, UpdateContactInput}
use fmxevolution_go.Crm.Repo.{
  find_contact, contacts_of, insert_contact, save_contact, has_phone, has_name, first, insert_tag,
  insert_note, link_tags,
}
use fmxevolution_go.Crm.Env.{Env, Req, query, write}

abbrev pub invalid : String → GoError
invalid = domain_error Kind.validation

-- `normalizeError` of a row that is not there
abbrev pub record_not_found : GoError
record_not_found = plain_error "record not found: record not found"

unfoldable pub is_not_found : GoError → Bool
is_not_found e = contains (to_lower e.text) "not found"

abbrev pub refused : Env → GoError
refused env = plain_error env.violation

abbrev pub is_digit : Char → Bool
is_digit c = leb 48 (code c) && leb (code c) 57

unfoldable pub normalize_phone : String → String
unfolding keep_chars
normalize_phone = keep_chars is_digit

code_sum : String → ℕ
code_sum [] = 0
code_sum (c ∷ s) = code c + code_sum s

unfoldable pub default_tag_color : String → String
unfolding code_sum
default_tag_color name = elim (code_sum name % 6) [
  | zero ↦ "slate"
  | suc a ↦ elim a [
    | zero ↦ "blue"
    | suc b ↦ elim b [
      | zero ↦ "green"
      | suc c ↦ elim c [ zero ↦ "amber" | suc d ↦ elim d [ zero ↦ "rose" | suc e ↦ "violet" ] ]
    ]
  ]
]

-- Every error of the repository is answered as a missing contact.
unfoldable pub get_contact : Env → String → String → Req Contact
unfolding map_err query find_contact
get_contact env tenant i =
    map_err (λ _. domain_error Kind.not_found "contact not found")
      (query env record_not_found (find_contact tenant i))

unfoldable pub list_contacts : Env → String → Req (List Contact)
unfolding query contacts_of
list_contacts env tenant = query env record_not_found λ db. some (contacts_of tenant db)

-- What is found under the phone decides: a contact that is in the way, or an error other than that
-- there is none.
unfoldable pub judge : (Contact → Bool) → Out GoError Contact → Req (Unit {0})
unfolding fail_if is_not_found
judge taken (ok c) =
    fail_if (taken c) (domain_error Kind.conflict "contact already exists for phone")
judge taken (err e) = fail_if (not (is_not_found e)) e

unfoldable pub ensure_phone_free : Env → String → String → (Contact → Bool) → Req (Unit {0})
unfolding attempt query first judge ◌>>=◌
ensure_phone_free env tenant phone taken = do
  found ← attempt (query env record_not_found (λ db. first (has_phone tenant phone) db.contacts))
  judge taken found

-- A tag of the name as it is, or a new one.
unfoldable pub or_new_tag : Env → String → String → Out GoError Tag → Req Tag
unfolding pure fail_if is_not_found write insert_tag default_tag_color ◌>>=◌
or_new_tag env tenant name (ok tag) = pure tag
or_new_tag env tenant name (err e) = do
  fail_if (not (is_not_found e)) e
  write env (refused env)
      (λ n. record {
        id = env.new_id n;
        tenant_id = tenant;
        name = name;
        color = default_tag_color name;
      })
      (insert_tag env.lower)

unfoldable pub find_or_create_tag : Env → String → String → Req Tag
unfolding attempt query first or_new_tag ◌>>=◌
find_or_create_tag env tenant name = do
  found ←
      attempt (query env record_not_found (λ db. first (has_name env.lower tenant name) db.tags))
  or_new_tag env tenant name found

-- The identifiers of the tags, those with no name left out.
unfoldable pub tag_ids : Env → String → List String → Req (List String)
unfolding pure find_or_create_tag ◌>>=◌
tag_ids env tenant List.[] = pure List.[]
tag_ids env tenant (List.◌∷◌ raw raws) =
    let rest = tag_ids env tenant raws in
    if is_blank raw then rest else (do
      tag ← find_or_create_tag env tenant (trim_space raw)
      ids ← rest
      pure (List.◌∷◌ tag.id ids))

-- `repo.AssignTags`
unfoldable pub assign_tags_call : Env → String → String → List String → Req (Unit {0})
unfolding write link_tags
assign_tags_call env tenant i ids =
    write env record_not_found (λ n. tt) (λ _. link_tags tenant i ids)

unfoldable pub replace_tags : Env → String → String → Option (List String) → Req (Unit {0})
unfolding pure tag_ids assign_tags_call ◌>>=◌
replace_tags env tenant i none = pure tt
replace_tags env tenant i (some tags) = do
  ids ← tag_ids env tenant tags
  assign_tags_call env tenant i ids

unfoldable pub add_note : Env → String → String → String → Req Note
unfolding fail_if get_contact write insert_note ◌>>=◌
add_note env tenant i body = do
  fail_if (is_blank body) (invalid "note body is required")
  _ ← get_contact env tenant i
  write env (refused env)
      (λ n. record {
        id = env.new_id n;
        tenant_id = tenant;
        contact_id = i;
        body = trim_space body;
      })
      insert_note

unfoldable pub add_notes : Env → String → String → List String → Req (Unit {0})
unfolding pure add_note ◌>>=◌
add_notes env tenant i List.[] = pure tt
add_notes env tenant i (List.◌∷◌ body bodies) = do
  _ ← add_note env tenant i body
  add_notes env tenant i bodies

-- The contact that `CreateContact` hands to the repository, with what gorm sets.
unfoldable pub new_contact : Env → String → CreateContactInput → ℕ → Contact
unfolding normalize_phone
new_contact env tenant input n = record {
  id = env.new_id n;
  tenant_id = tenant;
  phone = normalize_phone input.phone;
  name = trim_space input.name;
  email = to_lower (trim_space input.email);
  instance_id = trim_space input.instance_id;
  created_at = env.clock n;
  tags = List.[];
  notes = List.[];
}

unfoldable pub create_contact : Env → String → CreateContactInput → Req Contact
unfolding fail_if normalize_phone ensure_phone_free write insert_contact new_contact replace_tags
    add_notes get_contact ◌>>=◌
create_contact env tenant input = do
  fail_if (str_eq tenant "" || is_blank input.name || is_blank input.phone)
      (invalid "name and phone are required")
  fail_if (str_eq (normalize_phone input.phone) "") (invalid "phone must contain digits")
  ensure_phone_free env tenant (normalize_phone input.phone) (λ _. true)
  contact ← write env (refused env) (new_contact env tenant input) insert_contact
  replace_tags env tenant contact.id input.tags
  add_notes env tenant contact.id input.notes
  get_contact env tenant contact.id

-- The new phone of a contact, where the request has one.
unfoldable pub checked_phone : Env → String → Contact → UpdateContactInput → Req String
unfolding pure fail_if normalize_phone ensure_phone_free ◌>>=◌
checked_phone env tenant contact input = if str_eq input.phone "" then pure contact.phone else (do
  fail_if (str_eq (normalize_phone input.phone) "") (invalid "phone must contain digits")
  ensure_phone_free env tenant (normalize_phone input.phone) (λ c. not (str_eq c.id contact.id))
  pure (normalize_phone input.phone))

abbrev pub or_old : String → String → String → String
or_old given new old = if str_eq given "" then old else new

unfoldable pub changed_contact : UpdateContactInput → String → Contact → Contact
changed_contact input phone c = record c {
  name = or_old input.name (trim_space input.name) c.name;
  phone = phone;
  email = or_old input.email (to_lower (trim_space input.email)) c.email;
  instance_id = or_old input.instance_id (trim_space input.instance_id) c.instance_id;
}

unfoldable pub update_contact : Env → String → String → UpdateContactInput → Req Contact
unfolding get_contact checked_phone write save_contact changed_contact replace_tags ◌>>=◌
update_contact env tenant i input = do
  contact ← get_contact env tenant i
  phone ← checked_phone env tenant contact input
  changed ← write env (refused env) (λ _. changed_contact input phone contact) save_contact
  replace_tags env tenant changed.id input.tags
  get_contact env tenant changed.id

unfoldable pub assign_tags : Env → String → String → Option (List String) → Req Contact
unfolding get_contact replace_tags ◌>>=◌
assign_tags env tenant i tags = do
  _ ← get_contact env tenant i
  replace_tags env tenant i tags
  get_contact env tenant i
