-- ===== src/Policy.antt =====
-- What tools may do without being asked: internal/toolpolicy/policy.go. Go's string types of modes,
-- scopes and matchers are texts. `UrlLibrary` is what the code calls of `net/url`.
pub mod Targets
pub mod Permissions
mod Tests
use Prim.Native.String.{◌++◌ as text_append}
use materialmind.Common.{
  String, Bool, true, false, ◌&&◌, ◌||◌, Option, none, some, List, [], ◌∷◌, map, if◌then◌else◌,
  str_eq, any,
}

abbrev pub confirmation_allow : String
confirmation_allow = "allow"

abbrev pub confirmation_ask : String
confirmation_ask = "ask"

abbrev pub scope_workspace : String
scope_workspace = "workspace"

abbrev pub target_exact_url : String
target_exact_url = "exact_url"

abbrev pub target_origin : String
target_origin = "origin"

abbrev pub filesystem_scopes : List String
filesystem_scopes = scope_workspace ∷ "repository" ∷ "computer" ∷ []

-- The labels and descriptions are left out.
pub record Definition : Type 0 where
  pub name : String
  pub default_confirmation : String
  pub default_filesystem_scope : String
  pub supported_scopes : List String
  pub supported_target_matchers : List String

pub record TargetRule : Type 0 where
  pub matcher : String
  pub target : String
  pub confirmation_mode : String

pub record Permission : Type 0 where
  pub tool_name : String
  pub confirmation_mode : String
  pub filesystem_scope : String
  pub target_rules : List TargetRule

-- An entry of `definitions`.
abbrev pub definition : String → String → String → List String → List String → Definition
definition name confirmation scope scopes matchers = record {
  name = name;
  default_confirmation = confirmation;
  default_filesystem_scope = scope;
  supported_scopes = scopes;
  supported_target_matchers = matchers;
}

abbrev pub definitions : List Definition
definitions =
    definition "list_directory" confirmation_allow scope_workspace filesystem_scopes []
    ∷ definition "read_file" confirmation_allow scope_workspace filesystem_scopes []
    ∷ definition "grep" confirmation_allow scope_workspace filesystem_scopes []
    ∷ definition "fetch_url" confirmation_ask "" [] (target_exact_url ∷ target_origin ∷ [])
    ∷ definition "edit_file" confirmation_ask scope_workspace filesystem_scopes []
    ∷ definition "load_skill" confirmation_allow "" [] []
    ∷ definition "read_session_notes" confirmation_allow "" [] []
    ∷ definition "update_session_notes" confirmation_allow "" [] []
    ∷ definition "run_command" confirmation_ask scope_workspace
        (scope_workspace ∷ "repository" ∷ []) []
    ∷ []

abbrev pub find_definition : String → List Definition → Option Definition
find_definition name [] = none
find_definition name (d ∷ ds) = if str_eq d.name name then some d else find_definition name ds

-- `DefinitionFor`
abbrev pub definition_for : String → Option Definition
definition_for name = find_definition name definitions

abbrev pub default_permission : Definition → Permission
default_permission d = record {
  tool_name = d.name;
  confirmation_mode = d.default_confirmation;
  filesystem_scope = d.default_filesystem_scope;
  target_rules = [];
}

-- `DefaultPermissions`
abbrev pub default_permissions : List Permission
default_permissions = map default_permission definitions

-- `PermissionFor`
abbrev pub permission_for : List Permission → String → Option Permission
permission_for [] tool_name = none
permission_for (p ∷ ps) tool_name =
    if str_eq p.tool_name tool_name then some p else permission_for ps tool_name

-- `validConfirmationMode`
abbrev pub valid_confirmation_mode : String → Bool
valid_confirmation_mode mode = str_eq mode confirmation_allow || str_eq mode confirmation_ask

-- `slices.Contains` on texts
abbrev pub contains_text : List String → String → Bool
contains_text values value = any (λ v. str_eq v value) values

pub data PolicyError : Type 0 where
  wrong_count unknown_tool configured_twice invalid_mode no_scope invalid_scope : PolicyError
  unsupported_matcher invalid_rule_mode invalid_target duplicate_target missing_tool : PolicyError

pub data Checked {ℓ} (A : Type ℓ) : Type ℓ where
  valid : A → Checked A
  invalid : PolicyError → Checked A

-- The rest of a check, unless it has failed.
abbrev pub then_check {ℓ κ} : {A : Type ℓ} {B : Type κ} → Checked A → (A → Checked B) → Checked B
then_check (Checked.valid a) f = f a
then_check (Checked.invalid e) f = Checked.invalid e
