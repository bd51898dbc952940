-- ===== src/Tools/Value.antt =====
-- The values that cross the tool seam: texts, mappings, lists and tuples, and models with the
-- `Pii` marker that models/sensitivity.py puts on a field. A value that contains itself is not one.
use brokerops.Base.{String, Option}
use brokerops.Base.Int.{ℤ}
use brokerops.Models.Role.{Role}

-- `nothing` is `None`; `scalar` is any value without parts that is not a text.
mutual
  pub data Value : Type 0 where
    nothing : Value
    scalar : ℤ → Value
    text : String → Value
    mapping : Entries → Value
    sequence : Values → Value
    model : ModelFields → Value

  pub data Entries : Type 0 where
    no_entry : Entries
    entry : String → Value → Entries → Entries

  pub data Values : Type 0 where
    no_value : Values
    value : Value → Values → Values

  -- Each field has its name and the least role of its marker, if it has one.
  pub data ModelFields : Type 0 where
    no_field : ModelFields
    field : String → Option Role → Value → ModelFields → ModelFields
