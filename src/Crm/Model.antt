-- ===== src/Crm/Model.antt =====
-- The rows of internal/repository/models.go for contacts, and the requests of internal/crm/service.go.
-- `UpdatedAt` is read nowhere and is left out.
use fmxevolution_go.Base.{String, Option, List, Time}

pub record Tag : Type 0 where
  pub id : String
  pub tenant_id : String
  pub name : String
  pub color : String

pub record Note : Type 0 where
  pub id : String
  pub tenant_id : String
  pub contact_id : String
  pub body : String

-- In a row of the table the tags and notes are empty: they stand in tables of their own.
pub record Contact : Type 0 where
  pub id : String
  pub tenant_id : String
  pub phone : String
  pub name : String
  pub email : String
  pub instance_id : String
  pub created_at : Time
  pub tags : List Tag
  pub notes : List Note

-- A row of contact_tags.
pub record Link : Type 0 where
  pub contact_id : String
  pub tag_id : String

pub record CreateContactInput : Type 0 where
  pub name : String
  pub phone : String
  pub email : String
  pub instance_id : String
  -- none: the field is missing
  pub tags : Option (List String)
  pub notes : List String

pub record UpdateContactInput : Type 0 where
  pub name : String
  pub phone : String
  pub email : String
  pub instance_id : String
  pub tags : Option (List String)
