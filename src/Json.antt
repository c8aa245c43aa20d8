-- ===== src/Json.antt =====
-- JSON values as `response.json()` gives them to the program, and Python's tests on them.
use quota_radar.Prelude.{
  ℕ, String, Bool, true, false, Option, none, some, List, [], ◌∷◌, str_eq, if◌then◌else◌, not, ◌||◌,
  ◌&&◌, ◌==◌, nonempty,
}

-- An integer is `num n`, or `neg n` for -(n + 1); `real` is any other number, by its text.
mutual
  pub data Json : Type 0 where
    null : Json
    bool : Bool → Json
    num : ℕ → Json
    neg : ℕ → Json
    real : String → Json
    str : String → Json
    arr : Items → Json
    obj : Fields → Json

  pub data Items : Type 0 where
    nil : Items
    cons : Json → Items → Items

  pub data Fields : Type 0 where
    end : Fields
    field : String → Json → Fields → Fields

-- `value.get(key)` on a dict; a missing key is `None`.
pub get_field : String → Fields → Json
get_field k end = null
get_field k (field j v fs) = let rest = get_field k fs in if str_eq j k then v else rest

-- `value.get(key)` where `value` is a dict, and `None` otherwise.
unfoldable pub get : String → Json → Json
unfolding get_field
get k (obj fs) = get_field k fs
get k _ = null

-- `value if isinstance(value, str) else None`
abbrev pub as_text : Json → Option String
as_text (str s) = some s
as_text _ = none

abbrev pub is_dict : Json → Bool
is_dict (obj fs) = true
is_dict _ = false

abbrev is_zero : ℕ → Bool
is_zero n = n == 0

-- `bool(value)`
abbrev pub truthy : Json → Bool
truthy Json.null = false
truthy (Json.bool b) = b
truthy (Json.num n) = not (is_zero n)
truthy (Json.neg n) = true
truthy (Json.real s) = not (str_eq s "0.0" || str_eq s "-0.0")
truthy (Json.str s) = nonempty s
truthy (Json.arr Items.nil) = false
truthy (Json.arr (Items.cons j js)) = true
truthy (Json.obj Fields.end) = false
truthy (Json.obj (Fields.field k v fs)) = true

-- `value or default`
abbrev pub or_default : Json → Json → Json
or_default value default = if truthy value then value else default

unfoldable pub items : Items → List Json
items Items.nil = []
items (Items.cons j js) = j ∷ items js

unfoldable pub to_items : List Json → Items
to_items [] = Items.nil
to_items (j ∷ js) = Items.cons j (to_items js)

-- `list(value)` of a list
abbrev pub as_list : Json → Option (List Json)
as_list (Json.arr js) = some (items js)
as_list _ = none

unfoldable pub fields : List (String × Json) → Fields
fields [] = Fields.end
fields ((k, v) ∷ pairs) = Fields.field k v (fields pairs)

abbrev pub empty_list : Json
empty_list = Json.arr Items.nil

abbrev pub empty_dict : Json
empty_dict = Json.obj Fields.end

unfoldable pub all_dicts : List Json → Bool
all_dicts [] = true
all_dicts (j ∷ js) = is_dict j && all_dicts js

-- The members of a list; any other value has none.
abbrev pub items_of : Json → List Json
items_of (Json.arr js) = items js
items_of _ = []

-- The text at a key, if there is one and it is not blank in Python's sense of truth.
abbrev pub str_or : String → Json → String
str_or default (Json.str s) = if nonempty s then s else default
str_or default _ = default

-- A dict of these keys and values.
abbrev pub dict : List (String × Json) → Json
dict pairs = Json.obj (fields pairs)
