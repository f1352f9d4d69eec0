-- ===== src/Value.antt =====
-- The dynamic values that services/rag-service/src/rag reads: decoded JSON documents, the fields of
-- a stream entry, and the arguments of the StatusEvent constructor.
use rag_poc.Prelude.{ℕ, Text, Bool, Option, none, some, text_eq, if◌then◌else◌}

-- `negsuc n` is -(n + 1).
pub data ℤ : Type 0 where
  pos : ℕ → ℤ
  negsuc : ℕ → ℤ

-- What the program can see of a datetime: it has no UTC offset, its conversion to UTC raises, or it
-- is a moment in microseconds of UTC.
pub data Moment : Type 0 where
  naive : Moment
  unconvertible : Moment
  utc : ℕ → Moment

mutual
  -- `float m k` is m / 2^k.
  pub data Value : Type 0 where
    null : Value
    bool : Bool → Value
    int : ℤ → Value
    float : ℤ → ℕ → Value
    -- an infinite float, or one that is not a number
    not_finite : Value
    text : Text → Value
    bytes : Text → Value
    moment : Moment → Value
    array : Items → Value
    object : Fields → Value

  pub data Items : Type 0 where
    nil : Items
    cons : Value → Items → Items

  pub data Fields : Type 0 where
    end : Fields
    field : Text → Value → Fields → Fields

-- `document.get(name)`, where a missing key is `none`
unfoldable pub lookup : Text → Fields → Option Value
lookup name end = none
lookup name (field k v rest) = if text_eq k name then some v else lookup name rest
