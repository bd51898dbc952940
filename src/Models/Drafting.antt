-- ===== src/Models/Drafting.antt =====
-- models/drafting.py: what a drafting backend consumes and produces.
use brokerops.Base.{String}
use brokerops.Base.Dict.{Dict}
use brokerops.Models.Message.{MessageChannel}

pub record DraftContext : Type 0 where
  pub channel : MessageChannel
  pub recipient : String
  pub template_ref : String
  pub params : Dict String
  pub contact_id : String
  pub listing_key : String
  pub transaction_id : String

pub record DraftedMessage : Type 0 where
  pub channel : MessageChannel
  pub recipient : String
  pub subject : String
  pub body : String
  pub template_ref : String
  pub contact_id : String
  pub listing_key : String
  pub transaction_id : String
