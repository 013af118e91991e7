-- ===== src/Prelude/Json.antt =====
-- What Python's `json.loads` gives. Numbers are whole multiples of a fixed unit.
use Prim.Native.Nat.{zero, suc}
use mathlib.Core.Bool.{Bool, true, false}
use mathlib.Core.Option.{Option, none, some}
use langgraph_agent_stack.Prelude.Str.{Text, text_beq, nonempty}
use langgraph_agent_stack.Prelude.Tests.{if◌then◌else◌}
use langgraph_agent_stack.Prelude.Int.{ℤ, pos, negsuc}

mutual
  pub data Json : Type 0 where
    null : Json
    boolean : Bool → Json
    number : ℤ → Json
    string : Text → Json
    array : JsonItems → Json
    object : JsonFields → Json

  pub data JsonItems : Type 0 where
    no_items : JsonItems
    item : Json → JsonItems → JsonItems

  pub data JsonFields : Type 0 where
    no_fields : JsonFields
    field : Text → Json → JsonFields → JsonFields

-- `dict.get(key)`
abbrev pub field_of : Text → JsonFields → Option Json
field_of key no_fields = none
field_of key (field k v rest) =
    let later = field_of key rest in if text_beq k key then some v else later

-- `bool(value)`
abbrev pub truthy : Json → Bool
truthy null = false
truthy (boolean b) = b
truthy (number (pos zero)) = false
truthy (number (pos (suc n))) = true
truthy (number (negsuc n)) = true
truthy (string s) = nonempty s
truthy (array no_items) = false
truthy (array (item v rest)) = true
truthy (object no_fields) = false
truthy (object (field k v rest)) = true
