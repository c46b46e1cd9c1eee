-- ===== src/Json.antt =====
-- The JSON values of pydantic's `JsonValue`; `JsonObject` (domain.py) is `Fields`.
use owlmatic.Prelude.{Bool, Text}
use owlmatic.Prelude.Int.{ℤ}

mutual
  pub data Value : Type 0 where
    null : Value
    bool : Bool → Value
    int : ℤ → Value
    real : Text → Value
    str : Text → Value
    arr : Items → Value
    obj : Fields → Value

  pub data Items : Type 0 where
    nil : Items
    cons : Value → Items → Items

  pub data Fields : Type 0 where
    end : Fields
    field : Text → Value → Fields → Fields
