-- ===== src/Milestones/Opening.antt =====
-- services/transaction_open.py: what a freshly opened transaction looks like.
pub mod Laws
use Prim.Native.String
use Prim.Native.String.{count, slice}
use brokerops.Base.{ℕ, String, Bool, true, false, ◌||◌, Option, none, some, List, [], ◌∷◌, ltb}
use brokerops.Base.Lists.{any}
use brokerops.Base.Text.{concat}
use brokerops.Models.Transaction.{Transaction, TransactionParty, TransactionStage}
use brokerops.Models.Milestone.{Milestone, MilestoneTemplate}
use brokerops.World.{Result, ok, value_error}
use brokerops.World.Pure.{◌>>=◌, ◌>>◌, raise_when}
use brokerops.Milestones.Schedule.{generate_milestones}

abbrev pub listing_key_max_length : ℕ
listing_key_max_length = 36

-- `limit is not None and d < / > limit`
abbrev pub later_than : ℕ → Option ℕ → Bool
later_than d none = false
later_than d (some limit) = ltb limit d

abbrev pub sooner_than : Option ℕ → ℕ → Bool
sooner_than none d = false
sooner_than (some limit) d = ltb limit d

-- The test of the loop over the milestones.
unfoldable pub outside : ℕ → Option ℕ → Milestone → Bool
outside contract close m = ltb m.due_date contract || later_than m.due_date close

module _ (text_digest : String → String) where
  -- `hashlib.sha256` of the key is the parameter.
  unfoldable pub transaction_id_for_listing : String → String
  transaction_id_for_listing key = concat ("TXN-" ∷ slice (text_digest key) 0 16 ∷ [])

  unfoldable pub opened : String → ℕ → Option ℕ → List TransactionParty → Transaction
  unfolding transaction_id_for_listing
  opened key contract close parties = record {
    tenant_id = "";
    id = transaction_id_for_listing key;
    listing_key = key;
    stage = TransactionStage.under_contract;
    parties = parties;
    contract_date = contract;
    close_date = close;
  }

  unfoldable pub build_open_transaction :
      String
      → ℕ
      → Option ℕ
      → List TransactionParty
      → List MilestoneTemplate
      → Result (Transaction × List Milestone)
  unfolding opened outside generate_milestones
  build_open_transaction key contract close parties template =
      raise_when (ltb listing_key_max_length (count key)) value_error
      >> raise_when (sooner_than close contract) value_error
      >> (generate_milestones (opened key contract close parties) template >>= λ ms.
          raise_when (any (outside contract close) ms) value_error
          >> ok (opened key contract close parties, ms))
