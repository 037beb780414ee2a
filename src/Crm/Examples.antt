-- ===== src/Crm/Examples.antt =====
-- The theorems on contacts at concrete inputs.
use fmxevolution_go.Base.{
  leb, if◌then◌else◌, ◌≡◌, refl, ◌+◌, none, some, List, [], ◌∷◌, trim_space, contains, to_lower,
}
use fmxevolution_go.Base.Effect.{ok}
use fmxevolution_go.Domain.{plain_error}
use fmxevolution_go.Crm.Model.{Tag, Contact, CreateContactInput, UpdateContactInput}
use fmxevolution_go.Crm.Env.{Env, World}
use fmxevolution_go.Crm.Service.{create_contact, get_contact}
use fmxevolution_go.Crm.Foreign.{foreign}
use fmxevolution_go.Crm.Isolation.{
  Operation, create, update, note, tag, operate_all, operate_all-foreign,
}
use fmxevolution_go.Crm.Stored.{ReadBack, get_contact-create_contact}

abbrev env : Env
env = record {
  clock = λ n. 100 + n;
  db_fault = λ n. none;
  new_id = λ n. if leb n 2 then "n" else "m";
  lower = to_lower;
  violation = "duplicate key";
}

abbrev theirs : Contact
theirs = record {
  id = "c2";
  tenant_id = "t2";
  phone = "52155";
  name = "Eva";
  email = "";
  instance_id = "i2";
  created_at = 5;
  tags = [];
  notes = [];
}

abbrev their_tag : Tag
their_tag = record { id = "g2"; tenant_id = "t2"; name = "vip"; color = "blue" }

abbrev world : World
world = record {
  db = record {
    contacts = theirs ∷ [];
    tags = their_tag ∷ [];
    notes = [];
    links = record { contact_id = "c2"; tag_id = "g2" } ∷ [];
  };
  tick = 0;
}

abbrev request : CreateContactInput
request = record {
  name = " Ana ";
  phone = "+52 155";
  email = "Ana@Example.com";
  instance_id = " i1";
  tags = some ("vip" ∷ []);
  notes = "called" ∷ [];
}

abbrev change : UpdateContactInput
change = record { name = "Eve"; phone = ""; email = ""; instance_id = ""; tags = some [] }

-- The tenant creates a contact and asks for a contact of another one.
abbrev steps : List Operation
steps = create request ∷ update "c2" change ∷ note "c2" "mine" ∷ tag "n" none ∷ []

operate_all-foreign_example :
    foreign "t1" (operate_all env "t1" steps world).db ≡ foreign "t1" world.db
operate_all-foreign_example = operate_all-foreign env "t1" steps world ((λ h. absurd cc), tt)

abbrev contact : Contact
contact = record {
  id = "n";
  tenant_id = "t1";
  phone = "52155";
  name = "Ana";
  email = "ana@example.com";
  instance_id = "i1";
  created_at = 101;
  tags = record { id = "m"; tenant_id = "t1"; name = "vip"; color = "violet" } ∷ [];
  notes = record { id = "m"; tenant_id = "t1"; contact_id = "n"; body = "called" } ∷ [];
}

abbrev created : World
created = (create_contact env "t1" request world).1

get_contact-create_contact_example :
    (get_contact env "t1" contact.id created
      ≡ (ok contact, record created { tick = 1 + created.tick }))
    × ReadBack env "t1" request contact created
unfolding create_contact trim_space contains to_lower plain_error
get_contact-create_contact_example =
    get_contact-create_contact env "t1" request world contact created refl refl
