-- ===== src/Events/Payload.antt =====
-- The JSON of a callback, as src/events/ingestion.py looks at it.
use litellm_control_plane.Common.{
  zero, String, Bool, true, false, Option, none, some, ◌==◌, ◌||◌, not, eqb, if◌then◌else◌,
}
use litellm_control_plane.Models.{ℤ, pos, Float}

mutual
  pub data Json : Type 0 where
    null : Json
    boolean : Bool → Json
    integer : ℤ → Json
    float : Float → Json
    text : String → Json
    array : Items → Json
    object : Fields → Json

  pub data Items : Type 0 where
    nil : Items
    cons : Json → Items → Items

  pub data Fields : Type 0 where
    end : Fields
    field : String → Json → Fields → Fields

-- `item.get(key)`, with `None` for a key that is missing
unfoldable pub get : String → Fields → Json
get key end = null
get key (field k v fields) = if k == key then v else get key fields

-- `key in item`
unfoldable pub has_key : String → Fields → Bool
has_key key end = false
has_key key (field k v fields) = (k == key) || has_key key fields

-- `bool(value)`. The two zeros of a double are false.
abbrev pub truth : Json → Bool
truth null = false
truth (boolean b) = b
truth (integer (pos zero)) = false
truth (integer _) = true
truth (float f) = not (eqb f.bits 0 || eqb f.bits 0x8000000000000000)
truth (text s) = not (s == "")
truth (array nil) = false
truth (array (cons v vs)) = true
truth (object end) = false
truth (object (field k v fs)) = true

-- `a or b`
abbrev pub or_json : Json → Json → Json
or_json a b = if truth a then a else b

-- An id of a metadata block; an id that is no text counts as missing.
abbrev pub id_of : Json → Option String
id_of (text s) = if s == "" then none else some s
id_of _ = none
