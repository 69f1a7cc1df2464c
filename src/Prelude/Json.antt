-- ===== src/Prelude/Json.antt =====
-- A value of type `unknown`, as it arrives in a request body or from a JSON column.
use Prim.Native.Nat.{ℕ}
use Prim.Native.String.{String}
use mathlib.Core.Bool.{Bool}
use text.Mathlib.Text.{◌==◌ as str_eq}
use rem0te.Prelude.Tests.{if◌then◌else◌}

-- `other_number` stands for every number that is not a natural: negative, with a fraction, NaN.
-- `undefined` is the value of an absent field.
mutual
  pub data Json : Type 0 where
    undefined : Json
    null : Json
    bool : Bool → Json
    number : ℕ → Json
    other_number : Json
    string : String → Json
    array : Items → Json
    object : Fields → Json

  pub data Items : Type 0 where
    nil : Items
    cons : Json → Items → Items

  pub data Fields : Type 0 where
    end : Fields
    field : String → Json → Fields → Fields

lookup_field : String → Fields → Json
lookup_field k end = undefined
lookup_field k (field j v fs) = if str_eq j k then v else lookup_field k fs

-- `value[k]`, undefined on anything that is no object; the keys of an object are distinct.
unfoldable pub get_field : String → Json → Json
unfolding lookup_field
get_field k (object fs) = lookup_field k fs
get_field k _ = undefined
