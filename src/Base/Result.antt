-- ===== src/Base/Result.antt =====
-- What a Python function returns or raises. An exception is told apart by its class and its text.
use Prim.Native.Nat.{ℕ}
use Prim.Native.String.{String}

pub data Error : Type 0 where
  value_error : String → Error
  -- a ValueError whose text ends with a number
  bad_code : String → ℕ → Error
  integrity_error : String → Error
  decode_error : Error
  type_error : String → Error
  attribute_error : String → Error

pub data Result (A : Type 0) : Type 0 where
  ok : A → Result A
  raised : Error → Result A
