-- ===== src/Ai/Json.antt =====
-- The values of `json`, as the dicts of the service hold them. A number is a whole one.
use recentthink_ai_be.Common.{
  ℕ, String, Bool, true, false, Option, none, some, List, [], ◌∷◌, Dict, ◌==◌, str_eq, not,
}

mutual
  pub data Json : Type 0 where
    null : Json
    boolean : Bool → Json
    number : ℕ → Json
    text : String → Json
    array : Items → Json
    object : Fields → Json

  pub data Items : Type 0 where
    last : Items
    item : Json → Items → Items

  pub data Fields : Type 0 where
    end : Fields
    field : String → Json → Fields → Fields

-- the items of an object, and an object of items
abbrev pub items : Fields → Dict Json
items end = []
items (field k v fs) = (k, v) ∷ items fs

abbrev pub fields : Dict Json → Fields
fields [] = end
fields ((k, v) ∷ d) = field k v (fields d)

-- `isinstance(value, dict)`, with its items
abbrev pub as_dict : Json → Option (Dict Json)
as_dict (object fs) = some (items fs)
as_dict _ = none

-- the same of `d.get(key)`, which is `None` where there is no such key
abbrev pub dict_at : Option Json → Option (Dict Json)
dict_at none = none
dict_at (some v) = as_dict v

-- `value is not None`
abbrev pub not_none : Option Json → Option Json
not_none none = none
not_none (some null) = none
not_none (some v) = some v

abbrev pub is_empty {ℓ} : {A : Type ℓ} → List A → Bool
is_empty [] = true
is_empty (x ∷ xs) = false

-- `if value`, of a value that may be missing
unfoldable pub is_truthy : Option Json → Bool
is_truthy none = false
is_truthy (some null) = false
is_truthy (some (boolean b)) = b
is_truthy (some (number n)) = not (n == 0)
is_truthy (some (text s)) = not (str_eq s "")
is_truthy (some (array last)) = false
is_truthy (some (array (item x xs))) = true
is_truthy (some (object end)) = false
is_truthy (some (object (field k v fs))) = true
