-- ===== src/Json/Value.antt =====
-- JSON values as the decoder sees them: a number is its text, a string is unquoted.
use argonaut.Prelude.{Bool, List, [], ◌∷◌, Option, none, some, Bytes, equal, if◌then◌else◌}

-- `Items` and `Members` are the lists inside an array and an object.
mutual
  pub data Json : Type 0 where
    null : Json
    bool : Bool → Json
    number : Bytes → Json
    text : Bytes → Json
    array : Items → Json
    object : Members → Json

  pub data Items : Type 0 where
    no_items : Items
    item : Json → Items → Items

  pub data Members : Type 0 where
    no_members : Members
    member : Bytes → Json → Members → Members

abbrev pub items : Items → List Json
items no_items = []
items (item v vs) = v ∷ items vs

abbrev pub members : Members → List (Bytes × Json)
members no_members = []
members (member k v ms) = (k, v) ∷ members ms

-- A Go map that the members are stored in one after the other: the last value of a key.
unfoldable pub find : Bytes → List (Bytes × Json) → Option Json
find key [] = none
find key ((k, v) ∷ ms) = elim (find key ms) [
  | some w ↦ some w
  | none ↦ if equal k key then some v else none
]
