-- ===== src/Models/Transaction.antt =====
-- models/transaction.py. A date is its ordinal, as `date.toordinal` gives it.
use brokerops.Base.{ℕ, String, Bool, true, false, Option, List}

pub data TransactionStage : Type 0 where
  under_contract contingencies clear_to_close closed cancelled : TransactionStage

pub record TransactionParty : Type 0 where
  pub role : String
  pub name : String
  pub contact_id : Option String
  pub email : String

pub record Transaction : Type 0 where
  pub tenant_id : String
  pub id : String
  pub listing_key : String
  pub stage : TransactionStage
  pub parties : List TransactionParty
  pub contract_date : ℕ
  pub close_date : Option ℕ

-- `stage in ACTIVE_STAGES`
unfoldable pub is_active_stage : TransactionStage → Bool
is_active_stage under_contract = true
is_active_stage contingencies = true
is_active_stage clear_to_close = true
is_active_stage closed = false
is_active_stage cancelled = false

unfoldable pub is_active : Transaction → Bool
unfolding is_active_stage
is_active t = is_active_stage t.stage
