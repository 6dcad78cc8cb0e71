-- ===== src/Json.antt =====
-- What `json.loads` and `response.json()` return. An object is a dictionary: each name stands once.
use hermes_dev_team_vm.Prelude.{
  String, Bool, true, false, Option, none, some, ◌==◌, if◌then◌else◌, ℤ, pos, negsuc, eqb,
}

mutual
  pub data Json : Type 0 where
    null : Json
    boolean : Bool → Json
    integer : ℤ → Json
    -- a float, and the integer that it equals, where it is whole
    real : Option ℤ → Json
    text : String → Json
    array : Items → Json
    object : Members → Json

  pub data Items : Type 0 where
    nil : Items
    item : Json → Items → Items

  pub data Members : Type 0 where
    nothing_more : Members
    field : String → Json → Members → Members

-- d.get(name)
abbrev pub get : String → Members → Option Json
get name nothing_more = none
get name (field key value rest) =
    let later = get name rest in if key == name then some value else later

-- value.get(name) if isinstance(value, dict) else None
abbrev pub get_if_object : String → Option Json → Option Json
get_if_object name (some (object members)) = get name members
get_if_object name _ = none

-- value if isinstance(value, str)
abbrev pub as_text : Option Json → Option String
as_text (some (text s)) = some s
as_text _ = none

-- value if isinstance(value, dict)
abbrev pub as_object : Option Json → Option Members
as_object (some (object members)) = some members
as_object _ = none

-- int(value) if isinstance(value, int): a Boolean is an integer to Python
abbrev pub as_int : Option Json → Option ℤ
as_int (some (integer n)) = some n
as_int (some (boolean true)) = some (pos 1)
as_int (some (boolean false)) = some (pos 0)
as_int _ = none

abbrev pub eqb_ℤ : ℤ → ℤ → Bool
eqb_ℤ (pos m) (pos n) = eqb m n
eqb_ℤ (negsuc m) (negsuc n) = eqb m n
eqb_ℤ _ _ = false

-- value == n, where a Boolean and a whole float equal an integer
abbrev pub equals_int : Option Json → ℤ → Bool
equals_int (some (integer m)) n = eqb_ℤ m n
equals_int (some (boolean true)) n = eqb_ℤ (pos 1) n
equals_int (some (boolean false)) n = eqb_ℤ (pos 0) n
equals_int (some (real (some m))) n = eqb_ℤ m n
equals_int _ n = false
