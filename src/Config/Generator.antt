-- ===== src/Config/Generator.antt =====
-- `ConfigGenerator` of src/config/generator.py. Log lines and the writing of the file are not
-- modelled; `lower` changes the letters of ASCII.
pub mod Filter
pub mod Served
use Prim.Native.Char.{code}
use Prim.Native.String
use litellm_control_plane.Common.{
  ℕ, String, Bool, true, false, Option, none, some, List, [], ◌∷◌, ◌==◌, ◌&&◌, ◌||◌, not, any, eqb,
  select, if◌then◌else◌,
}
use litellm_control_plane.Common.Text.{concat, lower_text}
use litellm_control_plane.Table.{by, first}
use litellm_control_plane.Models.{ℤ, pos, Status, Override, Model, Account, Endpoint, Provider}
use litellm_control_plane.World.{World, returned, Exec, pure, gets, asks, ◌>>=◌, Db}

-- A row of the joined SELECT.
pub record Row : Type 0 where
  pub endpoint : Endpoint
  pub model : Model
  pub account : Account
  pub provider : Provider

-- What the resolver of src/secrets/doppler.py and `_resolve_api_base` give, which may differ in
-- each world; `none` is an exception of the one and no value of the other.
pub record Secrets : Type 0 where
  pub resolve : World → (secret_ref : String) → Option String
  pub api_base : World → Row → (prov_type secret_ref : String) → Option String

pub record LitellmParams : Type 0 where
  pub model : String
  pub api_key : String
  pub order : ℤ
  pub weight : ℤ
  pub api_base : Option String

pub record ModelEntry : Type 0 where
  pub model_name : String
  pub litellm_params : LitellmParams

-- `_CLOUD_PROVIDER_TYPES`
abbrev pub cloud_provider_types : List String
cloud_provider_types = "openai" ∷ "anthropic" ∷ "gemini" ∷ "cohere" ∷ "mistral" ∷ "azure" ∷ []

unfoldable pub is_cloud : String → Bool
unfolding any
is_cloud prov_type = any (λ t. t == prov_type) cloud_provider_types

-- `acc_status in ("disabled", "inactive")`
abbrev pub account_off : Status → Bool
account_off Status.disabled = true
account_off Status.inactive = true
account_off _ = false

-- `ep_status in ("disabled", "cooldown", "degraded")`
abbrev pub endpoint_down : Status → Bool
endpoint_down Status.disabled = true
endpoint_down Status.cooldown = true
endpoint_down Status.degraded = true
endpoint_down _ = false

-- `acc_status in ("disabled", "inactive", "cooldown")`
abbrev pub account_down : Status → Bool
account_down Status.disabled = true
account_down Status.inactive = true
account_down Status.cooldown = true
account_down _ = false

abbrev pub is_force_disabled : Override → Bool
is_force_disabled Override.force_disabled = true
is_force_disabled _ = false

abbrev pub is_force_active : Override → Bool
is_force_active Override.force_active = true
is_force_active _ = false

-- The exclusion filters: `true` where the loop goes on to the next row.
unfoldable pub is_excluded : Override → (ep_status acc_status : Status) → Bool
is_excluded manual_override ep_status acc_status =
    if is_force_disabled manual_override
    then true
    else if not (is_force_active manual_override)
    then endpoint_down ep_status || account_down acc_status
    else account_off acc_status

-- `api_base.rstrip("/")`
unfoldable pub rstrip_slash : String → String
rstrip_slash String.[] = String.[]
rstrip_slash (String.◌∷◌ c s) =
    let rest = rstrip_slash s in
    if rest == "" && eqb (code c) 47 then String.[] else String.◌∷◌ c rest

-- `api_base[:-4]` where the text ends in "/api", and the text itself where it does not
unfoldable pub without_api : String → String
without_api String.[] = String.[]
without_api (String.◌∷◌ c s) =
    let rest = without_api s in if String.◌∷◌ c s == "/api" then String.[] else String.◌∷◌ c rest

unfoldable pub sanitize : (prov_type api_base : String) → String
sanitize prov_type api_base =
    if prov_type == "ollama" then without_api (rstrip_slash api_base) else api_base

unfoldable pub model_string : (prov_type model_name : String) → String
model_string prov_type model_name =
    if prov_type == "nim"
    then concat "openai/" model_name
    else if not (is_cloud prov_type)
    then concat prov_type (concat "/" model_name)
    else model_name

-- `if api_base:` takes the empty text for none.
abbrev pub sanitized : String → Option String → Option String
sanitized prov_type none = none
sanitized prov_type (some b) = if b == "" then none else some (sanitize prov_type b)

-- The entry of a row whose key is resolved.
unfoldable pub entry_of : Row → (api_key : String) → (base : Option String) → ModelEntry
entry_of r api_key base =
    let prov_type = lower_text r.provider.type in
    record {
      model_name = r.model.logical_group;
      litellm_params = record {
        model = model_string prov_type r.model.name;
        api_key = api_key;
        order = if is_force_active r.endpoint.manual_override then pos 1 else r.endpoint.priority;
        weight = r.endpoint.weight;
        api_base = if is_cloud prov_type then none else sanitized prov_type base;
      };
    }

-- JOIN … ON, by primary keys
abbrev pub join_provider : Endpoint → Model → Account → Option Provider → Option Row
join_provider e m a none = none
join_provider e m a (some p) = some (record { endpoint = e; model = m; account = a; provider = p })

abbrev pub join_account : Db → Endpoint → Model → Option Account → Option Row
join_account d e m none = none
join_account d e m (some a) = join_provider e m a (first (by (λ p. p.id) a.provider_id) d.providers)

abbrev pub join_model : Db → Endpoint → Option Model → Option Row
join_model d e none = none
join_model d e (some m) = join_account d e m (first (by (λ a. a.id) e.account_id) d.accounts)

unfoldable pub join_row : Db → Endpoint → Option Row
join_row d e = join_model d e (first (by (λ m. m.id) e.model_id) d.models)

abbrev pub cons_row : Option Row → List Row → List Row
cons_row none rows = rows
cons_row (some r) rows = r ∷ rows

unfoldable pub join_rows : Db → List Endpoint → List Row
join_rows d [] = []
join_rows d (e ∷ es) = cons_row (join_row d e) (join_rows d es)

-- `WHERE e.node_id = ?`
unfoldable pub rows_of : Db → String → List Row
rows_of d node_id = join_rows d (select (by (λ e. e.node_id) node_id) d.endpoints)

abbrev pub row_excluded : Row → Bool
row_excluded r = is_excluded r.endpoint.manual_override r.endpoint.status r.account.status

module _ (secrets : Secrets) where
  abbrev pub entry_with : World → Row → Option String → List ModelEntry → List ModelEntry
  entry_with w r none rest = rest
  entry_with w r (some api_key) rest =
      entry_of r api_key (secrets.api_base w r (lower_text r.provider.type) r.account.secret_ref)
      ∷ rest

  -- The loop over the rows.
  unfoldable pub model_list : World → List Row → List ModelEntry
  model_list w [] = []
  model_list w (r ∷ rows) =
      let rest = model_list w rows in
      if row_excluded r then rest else entry_with w r (secrets.resolve w r.account.secret_ref) rest

  -- The settings beside the list are constants.
  unfoldable pub generate_config : String → Exec (List ModelEntry)
  generate_config node_id = do rows ← gets λ d. rows_of d node_id; asks λ w. model_list w rows
