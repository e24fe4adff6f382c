-- ===== src/Json.antt =====
-- JSON values, as `JSON.parse` returns them. A number is an integer. (Payload takes of a number only the text that the
-- platform prints, so the integers may stand for any numbers there; the times in Layout are whole milliseconds.)
use horizon_new_dawn.Base.{String, Bool, string_eq}
use horizon_new_dawn.Base.Int.{ℤ}

mutual
  pub data Json : Type 0 where
    null : Json
    boolean : Bool → Json
    number : ℤ → Json
    text : String → Json
    array : Items → Json
    object : Fields → Json

  pub data Items : Type 0 where
    nil : Items
    cons : Json → Items → Items

  pub data Fields : Type 0 where
    empty : Fields
    field : String → Json → Fields → Fields
