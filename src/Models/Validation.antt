-- ===== src/Models/Validation.antt =====
-- The field validators of src/registry/models.py. `false` stands for the `ValueError`.
use text.Mathlib.Text.{starts_with}
use litellm_control_plane.Common.{String, Bool, true, false, Option, none, some, all}
use litellm_control_plane.Models.{JsonItem, JsonText, item, other, array}

-- `AccountBase.validate_secret_ref`
unfoldable pub validate_secret_ref : String → Bool
validate_secret_ref v = starts_with v "doppler://"

abbrev pub is_text : JsonItem → Bool
is_text (item _) = true
is_text other = false

-- `PolicyProfileBase.validate_allowed_model_groups`
unfoldable pub validate_allowed_model_groups : JsonText → Bool
unfolding all
validate_allowed_model_groups (array items) = all is_text items
validate_allowed_model_groups _ = false

-- `PolicyProfileUpdate.validate_allowed_model_groups`, which looks at no element
unfoldable pub validate_updated_groups : Option JsonText → Bool
validate_updated_groups none = true
validate_updated_groups (some (array _)) = true
validate_updated_groups (some _) = false
