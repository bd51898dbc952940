-- ===== src/Models/Json.antt =====
-- JSON values: what `model_dump(mode="json")`, an audit record's `args` and a payload hold.
use brokerops.Base.{Bool, String}
use brokerops.Base.Int.{ℤ}

mutual
  pub data Json : Type 0 where
    null : Json
    bool : Bool → Json
    int : ℤ → Json
    str : String → Json
    arr : Items → Json
    obj : Fields → Json

  pub data Items : Type 0 where
    nil : Items
    cons : Json → Items → Items

  pub data Fields : Type 0 where
    end : Fields
    field : String → Json → Fields → Fields
