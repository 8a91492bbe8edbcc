-- ===== src/Json.antt =====
-- Values decoded from JSON into Go's `interface{}`: tool arguments, ticket and audit params. A number
-- is its text. `foreign` is a Go value of any other type, such as a struct, by the JSON that it encodes to.
use pvm.Prelude.{String, Bool}

mutual
  pub data Json : Type 0 where
    null : Json
    bool : Bool → Json
    num : String → Json
    str : String → Json
    arr : Items → Json
    obj : Fields → Json
    foreign : String → Json

  pub data Items : Type 0 where
    nil : Items
    cons : Json → Items → Items

  pub data Fields : Type 0 where
    end : Fields
    field : String → Json → Fields → Fields
