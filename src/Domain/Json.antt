-- ===== src/Domain/Json.antt =====
-- `JsonValue` payloads (src/causalops/domain.py). Text inside a payload is the list of its code points;
-- a payload is a dict in insertion order. Of the numbers only the naturals are kept: nothing reads them.
use causal_ops.Prelude.{ℕ, String, Bool, List}

mutual
  pub data JsonValue : Type 0 where
    null : JsonValue
    bool : Bool → JsonValue
    num : ℕ → JsonValue
    str : List ℕ → JsonValue
    arr : Items → JsonValue
    obj : Fields → JsonValue

  pub data Items : Type 0 where
    nil : Items
    cons : JsonValue → Items → Items

  pub data Fields : Type 0 where
    end : Fields
    field : String → JsonValue → Fields → Fields

-- `dict[str, JsonValue]`
abbrev pub Payload : Type 0
Payload = List (String × JsonValue)
