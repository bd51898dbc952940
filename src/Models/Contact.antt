-- ===== src/Models/Contact.antt =====
-- models/contact.py: what the CRM holds, as the port returns it.
use brokerops.Base.{ℕ, String, Option}

pub record Contact : Type 0 where
  pub crm_id : String
  pub name : String
  pub role : String
  pub email : Option String
  pub phone : Option String

pub record ContactCreate : Type 0 where
  pub first_name : String
  pub last_name : String
  pub email : Option String
  pub phone : Option String
  pub source : String

pub record CrmTask : Type 0 where
  pub id : String
  pub name : String
  pub due_date : Option ℕ
  pub contact_id : Option String
