-- ===== src/Doppler/Uri.antt =====
-- `parse_uri` of src/secrets/doppler.py: the regular expression
-- `^doppler://([^/]+)/([^/]+)/([^/]+)$`. A segment takes a newline too, so `$` is the end.
pub mod RoundTrip
use Prim.Native.Char.{code}
use Prim.Native.String
use litellm_control_plane.Common.{String, Option, none, some, ◌==◌, ◌||◌, not, eqb, if◌then◌else◌}
use litellm_control_plane.Common.Text.{strip_prefix}
use litellm_control_plane.World.{Exec, pure, raise, or_else, value_error}

-- `[^/]*` from the front, and what follows.
unfoldable pub segment : String → String × String
segment String.[] = (String.[], String.[])
segment (String.◌∷◌ c s) =
    let (name, rest) = segment s in
    if eqb (code c) 47 then (String.[], String.◌∷◌ c s) else (String.◌∷◌ c name, rest)

-- The three groups of a match.
pub record Reference : Type 0 where
  pub project : String
  pub config : String
  pub secret_name : String

-- The last group, which is not empty and reaches to the end.
abbrev pub match_name : (project config : String) → String × String → Option Reference
match_name project config (name, rest) =
    if name == "" || not (rest == "")
    then none
    else some (record { project = project; config = config; secret_name = name })

abbrev pub match_last : (project config : String) → Option String → Option Reference
match_last project config none = none
match_last project config (some text) = match_name project config (segment text)

-- The second group, and the slash behind it.
abbrev pub match_config : (project : String) → String × String → Option Reference
match_config project (config, rest) =
    if config == "" then none else match_last project config (strip_prefix "/" rest)

abbrev pub match_middle : (project : String) → Option String → Option Reference
match_middle project none = none
match_middle project (some text) = match_config project (segment text)

-- The first group, and the slash behind it.
abbrev pub match_project : String × String → Option Reference
match_project (project, rest) =
    if project == "" then none else match_middle project (strip_prefix "/" rest)

abbrev pub match_segments : Option String → Option Reference
match_segments none = none
match_segments (some text) = match_project (segment text)

-- `re.match(r"^doppler://([^/]+)/([^/]+)/([^/]+)$", uri)`
unfoldable pub match_uri : String → Option Reference
match_uri uri = match_segments (strip_prefix "doppler://" uri)

unfoldable pub parse_uri : String → Exec Reference
parse_uri uri = or_else (match_uri uri) (raise (value_error "Invalid Doppler secret URI")) pure
