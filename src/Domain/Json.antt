-- ===== src/Domain/Json.antt =====
-- The JSON documents that rows keep (`dict[str, object]`, `Jsonb`).
use ops_composer.Prelude.{ℤ, String, Bool}

-- A number that is no integer is its literal's text; nothing here computes with it.
mutual
  pub data Json : Type 0 where
    null : Json
    boolean : Bool → Json
    integer : ℤ → Json
    real : String → Json
    text : String → Json
    array : Items → Json
    object : Fields → Json

  pub data Items : Type 0 where
    nil : Items
    cons : Json → Items → Items

  pub data Fields : Type 0 where
    empty : Fields
    field : String → Json → Fields → Fields
