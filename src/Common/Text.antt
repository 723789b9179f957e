-- ===== src/Common/Text.antt =====
-- Python's `str` operations that the program uses: `in`, `lower`, `+` and `startswith`.
use Prim.Native.Nat.{ℕ, zero, suc, ◌+◌, ◌/◌, ◌%◌}
use Prim.Native.Char.{Char, char, code}
use Prim.Native.String.{String}
use Prim.Native.String
use mathlib.Core.Bool.{Bool, true, false, ◌&&◌, ◌||◌}
use mathlib.Core.Option.{Option, none, some}
use text.Mathlib.Text.{◌==◌}
use mathlib.Core.List.{List, [], ◌∷◌, map}
use litellm_control_plane.Common.Tests.{leb, ltb, eqb, if◌then◌else◌}

-- The code points of a text.
abbrev pub codes : String → List ℕ
codes String.[] = []
codes (String.◌∷◌ c s) = code c ∷ codes s

-- `str.lower` on one code point. Of the letters outside ASCII only the Kelvin sign has an ASCII
-- letter alone for its lower case; the others stay, since no text is searched for them.
pub lower_code : ℕ → ℕ
lower_code c = if leb 65 c && leb c 90 then c + 32 else if eqb c 0x212a then 107 else c

-- `text.lower()`
pub lower : List ℕ → List ℕ
unfolding lower_code
lower = map lower_code

pub is_prefix : List ℕ → List ℕ → Bool
is_prefix [] t = true
is_prefix (a ∷ s) [] = false
is_prefix (a ∷ s) (b ∷ t) = eqb a b && is_prefix s t

-- `needle in text`
pub is_infix : List ℕ → List ℕ → Bool
unfolding is_prefix
is_infix s [] = is_prefix s []
is_infix s (b ∷ t) = is_prefix s (b ∷ t) || is_infix s t

-- `needle in text`
unfoldable pub contains : String → String → Bool
unfolding is_infix
contains needle text = is_infix (codes needle) (codes text)

-- `needle in text.lower()`
unfoldable pub contains_lower : String → String → Bool
unfolding is_infix lower
contains_lower needle text = is_infix (codes needle) (lower (codes text))

-- `text.lower()`, as its code points
unfoldable pub lower_codes : String → List ℕ
unfolding lower
lower_codes text = lower (codes text)

abbrev eq_codes : List ℕ → List ℕ → Bool
eq_codes [] [] = true
eq_codes (a ∷ s) (b ∷ t) = eqb a b && eq_codes s t
eq_codes _ _ = false

-- `text == name`, on the code points of the text
unfoldable pub codes_are : String → List ℕ → Bool
codes_are name text = eq_codes (codes name) text

-- `text.lower()` as a text, for the letters of ASCII.
abbrev lower_char : String → String → Char → Char
lower_char (String.◌∷◌ upper uppers) (String.◌∷◌ small smalls) c =
    if eqb (code upper) (code c) then small else lower_char uppers smalls c
lower_char _ _ c = c

abbrev pub lower_text : String → String
lower_text String.[] = String.[]
lower_text (String.◌∷◌ c s) =
    String.◌∷◌ (lower_char "ABCDEFGHIJKLMNOPQRSTUVWXYZ" "abcdefghijklmnopqrstuvwxyz" c)
      (lower_text s)

-- `text.startswith(prefix)`
unfoldable pub has_prefix : String → String → Bool
unfolding is_prefix
has_prefix prefix text = is_prefix (codes prefix) (codes text)

-- `s + t`
abbrev pub concat : String → String → String
concat s t = String.◌++◌ s t

abbrev pub digit : ℕ → String
digit zero = "0"
digit (suc zero) = "1"
digit (suc (suc zero)) = "2"
digit (suc (suc (suc zero))) = "3"
digit (suc (suc (suc (suc zero)))) = "4"
digit (suc (suc (suc (suc (suc zero))))) = "5"
digit (suc (suc (suc (suc (suc (suc zero)))))) = "6"
digit (suc (suc (suc (suc (suc (suc (suc zero))))))) = "7"
digit (suc (suc (suc (suc (suc (suc (suc (suc zero)))))))) = "8"
digit (suc (suc (suc (suc (suc (suc (suc (suc (suc rest))))))))) = "9"

-- One digit for each unit of fuel; a number has at most as many digits as its successor counts.
pub decimal_digits : ℕ → ℕ → String
decimal_digits zero n = ""
decimal_digits (suc fuel) n =
    let higher = decimal_digits fuel (n / 10) in
    if ltb n 10 then digit n else concat higher (digit (n % 10))

-- `str(n)`
unfoldable pub decimal : ℕ → String
unfolding decimal_digits
decimal n = decimal_digits (suc n) n

-- A letter or a digit of ASCII as an upper case letter or a digit, and `_` for all else.
abbrev env_char : String → String → Char → Char
env_char (String.◌∷◌ k keys) (String.◌∷◌ v values) c =
    if eqb (code k) (code c) then v else env_char keys values c
env_char _ _ c = char 95 tt

-- `re.sub(r"[^A-Za-z0-9]", "_", name).upper()`
unfoldable pub env_name : String → String
env_name String.[] = String.[]
env_name (String.◌∷◌ c s) =
    String.◌∷◌
      (env_char "abcdefghijklmnopqrstuvwxyzABCDEFGHIJKLMNOPQRSTUVWXYZ0123456789"
        "ABCDEFGHIJKLMNOPQRSTUVWXYZABCDEFGHIJKLMNOPQRSTUVWXYZ0123456789" c)
      (env_name s)

-- `value or None` on a text that may be missing: the empty text counts as missing.
abbrev pub truthy : Option String → Option String
truthy none = none
truthy (some s) = if s == "" then none else some s

-- What follows a prefix, where the text begins with it.
unfoldable pub strip_prefix : (prefix text : String) → Option String
strip_prefix String.[] t = some t
strip_prefix (String.◌∷◌ c s) String.[] = none
strip_prefix (String.◌∷◌ c s) (String.◌∷◌ d t) =
    let rest = strip_prefix s t in if eqb (code c) (code d) then rest else none

-- `text.upper()` as a text, for the letters of ASCII.
abbrev pub upper_text : String → String
upper_text String.[] = String.[]
upper_text (String.◌∷◌ c s) =
    String.◌∷◌ (lower_char "abcdefghijklmnopqrstuvwxyz" "ABCDEFGHIJKLMNOPQRSTUVWXYZ" c)
      (upper_text s)
