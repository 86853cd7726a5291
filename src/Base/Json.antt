-- ===== src/Base/Json.antt =====
-- The JSON values that tools take and journals hold. A number is kept as its literal text, which
-- no modelled code reads.
use mathlib.Core.Option.{Option, none, some}
use mathlib.Core.Logic.{ite}
use Prim.Native.String.{String}
use mathlib.Core.Bool.{Bool}
use kross.Base.Tests.{String-discrete}

mutual
  pub data Fields : Type 0 where
    no_fields : Fields
    field : String → Value → Fields → Fields

  pub data Elements : Type 0 where
    no_elements : Elements
    element : Value → Elements → Elements

  pub data Value : Type 0 where
    obj : Fields → Value
    array : Elements → Value
    str number : String → Value
    boolean : Bool → Value
    null : Value

unfoldable pub find_field : String → Fields → Option Value
unfolding String-discrete
find_field k no_fields = none
find_field k (field j v fs) = ite (String-discrete j k) (some v) (find_field k fs)

-- `typeof record.k === 'string' ? record.k : undefined`.
unfoldable pub text_field : String → Value → Option String
unfolding find_field
text_field k (obj fs) = elim (find_field k fs) [
  | none ↦ none
  | some v ↦ elim v [ str s ↦ some s | _ ↦ none ]
]
text_field k _ = none
