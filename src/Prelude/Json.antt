-- ===== src/Prelude/Json.antt =====
-- The values that `json.loads` returns.
use Prim.Native.Nat.{ℕ}
use mathlib.Core.Bool.{Bool, false}
use mathlib.Core.Option.{Option, none, some}
use zenith_voip.Prelude.Tests.{if◌then◌else◌, ◌==◌}
use zenith_voip.Prelude.Strings.{Text, text_eq}

-- `num n` is a number equal to `n`, also when it is written as `n.0`; `other_num` is any other.
mutual
  pub data Json : Type 0 where
    null : Json
    bool : Bool → Json
    num : ℕ → Json
    other_num : Text → Json
    str : Text → Json
    arr : Items → Json
    obj : Fields → Json

  pub data Items : Type 0 where
    nil : Items
    cons : Json → Items → Items

  pub data Fields : Type 0 where
    end : Fields
    field : Text → Json → Fields → Fields

-- `d.get(key)`; of two equal keys in the text the last counts.
unfoldable pub member : Text → Fields → Option Json
member k end = none
member k (field j v rest) = elim (member k rest) [
  | some w ↦ some w
  | none ↦ if text_eq j k then some v else none
]

-- `value == 1`, which Python also answers for `True`
unfoldable pub is_one : Option Json → Bool
is_one (some (num n)) = n == 1
is_one (some (bool b)) = b
is_one _ = false
