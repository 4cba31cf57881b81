-- ===== src/Common/Value.antt =====
-- Go's interface{} values, as they come out of JSON, of scripts and of the counters.
use Prim.Native.Nat.{ℕ}
use Prim.Native.String.{String}
use mathlib.Core.Bool.{Bool}
use imposter_go.Common.Int.{ℤ}

mutual
  -- A float64 is kept as its integer part, which int64(v) takes, and a number that stands for the
  -- rest of it.
  pub data Value : Type 0 where
    nil : Value
    bool : Bool → Value
    int : ℤ → Value
    int64 : ℤ → Value
    float64 : ℤ → ℕ → Value
    string : String → Value
    array : Items → Value
    object : Fields → Value

  pub data Items : Type 0 where
    end : Items
    item : Value → Items → Items

  pub data Fields : Type 0 where
    close : Fields
    field : String → Value → Fields → Fields
