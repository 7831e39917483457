-- ===== src/Json.antt =====
-- serde_json's `Value`, as far as the program takes it apart. A number stands for itself by its
-- literal. The entries of an object stand in the order in which serde_json's map lists them.
use code_is_cheap.Common.{Bool, Option, none, some, List, [], ◌∷◌, if◌then◌else◌}
use code_is_cheap.Text.{Text, text_eq}

mutual
  pub data Value : Type 0 where
    null : Value
    bool : Bool → Value
    number : Text → Value
    string : Text → Value
    array : Items → Value
    object : Fields → Value

  pub data Items : Type 0 where
    nil : Items
    item : Value → Items → Items

  pub data Fields : Type 0 where
    end : Fields
    field : Text → Value → Fields → Fields

-- `Map::keys`.
unfoldable pub keys : Fields → List Text
keys end = []
keys (field k v fs) = k ∷ keys fs

-- `Map::get`.
unfoldable pub lookup : Text → Fields → Option Value
unfolding text_eq
lookup name end = none
lookup name (field k v fs) = if text_eq k name then some v else lookup name fs
