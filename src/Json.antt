-- ===== src/Json.antt =====
-- JSON documents by value, and byte strings by what they hold: what encoding/json reads and writes.
pub mod Decode
pub mod Encode
pub mod Schema
use lfx_v2_persona_service.Prelude.{ℕ, String, Bool}

-- A Go `int`: `negsuc n` is -(n + 1).
pub data ℤ : Type 0 where
  pos : ℕ → ℤ
  negsuc : ℕ → ℤ

mutual
  pub data Json : Type 0 where
    null : Json
    bool : Bool → Json
    -- A number literal without fraction or exponent.
    int : ℤ → Json
    -- Any other number literal, by its text.
    real : String → Json
    str : String → Json
    arr : Items → Json
    obj : Fields → Json

  pub data Items : Type 0 where
    nil : Items
    cons : Json → Items → Items

  pub data Fields : Type 0 where
    end : Fields
    field : String → Json → Fields → Fields

-- A byte string: what `json.Marshal` wrote for a document, or any other text.
pub data Bytes : Type 0 where
  document : Json → Bytes
  text : String → Bytes
