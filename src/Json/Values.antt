-- ===== src/Json/Values.antt =====
-- JSON documents as Python holds them.
use qnty_authority_root.Prelude.{Bool, Text, ℤ}

mutual
  pub data Value : Type 0 where
    null : Value
    bool : Bool → Value
    int : ℤ → Value
    str : Text → Value
    arr : Items → Value
    obj : Fields → Value

  pub data Items : Type 0 where
    nil : Items
    cons : Value → Items → Items

  -- A `dict` in the order in which its keys were inserted.
  pub data Fields : Type 0 where
    end : Fields
    field : Text → Value → Fields → Fields
