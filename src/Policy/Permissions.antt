-- ===== src/Policy/Permissions.antt =====
-- The permissions that a workspace configures: `NormalizePermissions`.
pub mod Laws
use Prim.Native.Nat.{Ordering}
use Prim.Native.String.{compare, ◌++◌ as text_append}
use materialmind.Common.{
  ℕ, String, Bool, true, false, ◌&&◌, not, Option, none, some, List, [], ◌∷◌, if◌then◌else◌, str_eq,
  ◌==◌, length, lookup, insert,
}
use materialmind.Common.Text.{trim_space}
use materialmind.Policy.{
  Definition, TargetRule, Permission, definitions, definition_for, valid_confirmation_mode,
  contains_text, PolicyError, Checked, then_check,
}
use materialmind.Policy.Targets.{UrlLibrary, normalize_url_target}

-- The function that `slices.SortFunc` gets: whether a rule comes before another.
abbrev pub is_before : TargetRule → TargetRule → Bool
is_before left right =
    if str_eq left.matcher right.matcher
    then elim (compare left.target right.target) [ Ordering.lt ↦ true | _ ↦ false ]
    else elim (compare left.matcher right.matcher) [ Ordering.lt ↦ true | _ ↦ false ]

-- `slices.SortFunc` on rules, of which no two are alike.
abbrev pub insert_rule : TargetRule → List TargetRule → List TargetRule
insert_rule rule [] = rule ∷ []
insert_rule rule (r ∷ rs) =
    let later = insert_rule rule rs in if is_before r rule then r ∷ later else rule ∷ r ∷ rs

abbrev pub sort_rules : List TargetRule → List TargetRule
sort_rules [] = []
sort_rules (r ∷ rs) = insert_rule r (sort_rules rs)

abbrev pub rule_key : String → String → String
rule_key matcher target = text_append matcher (text_append "\0" target)

abbrev pub scope_fits : Definition → String → Bool
scope_fits d scope = elim d.supported_scopes [
  | [] ↦ str_eq scope ""
  | s ∷ ss ↦ contains_text (s ∷ ss) scope
]

abbrev pub scope_error : Definition → PolicyError
scope_error d = elim d.supported_scopes [
  | [] ↦ PolicyError.no_scope
  | s ∷ ss ↦ PolicyError.invalid_scope
]

module _ (lib : UrlLibrary) where
  -- One rule with its normalized target, after those whose keys are `seen`.
  abbrev pub check_target : TargetRule → List String → Option String → Checked TargetRule
  check_target rule seen none = Checked.invalid PolicyError.invalid_target
  check_target rule seen (some target) =
      if contains_text seen (rule_key rule.matcher target)
      then Checked.invalid PolicyError.duplicate_target
      else Checked.valid (record rule { target = target })

  abbrev pub check_rule : Definition → List String → TargetRule → Checked TargetRule
  check_rule d seen rule =
      if not (contains_text d.supported_target_matchers rule.matcher)
      then Checked.invalid PolicyError.unsupported_matcher
      else (if not (valid_confirmation_mode rule.confirmation_mode)
          then Checked.invalid PolicyError.invalid_rule_mode
          else check_target rule seen (normalize_url_target lib rule.matcher rule.target))

  -- The loop over the rules.
  abbrev pub check_rules : Definition → List String → List TargetRule → Checked (List TargetRule)
  check_rules d seen [] = Checked.valid []
  check_rules d seen (rule ∷ rules) = then_check (check_rule d seen rule) (λ checked.
      then_check (check_rules d (rule_key checked.matcher checked.target ∷ seen) rules)
        (λ rest. Checked.valid (checked ∷ rest)))

  -- What is checked of a permission besides its name.
  abbrev pub check_permission : Definition → Permission → Checked Permission
  check_permission d p =
      if not (valid_confirmation_mode p.confirmation_mode)
      then Checked.invalid PolicyError.invalid_mode
      else (if not (scope_fits d p.filesystem_scope)
          then Checked.invalid (scope_error d)
          else then_check (check_rules d [] p.target_rules)
              (λ rules. Checked.valid (record p { target_rules = sort_rules rules })))

  abbrev pub add_defined :
      Option Definition
      → Option Permission
      → Permission
      → List (String × Permission)
      → Checked (List (String × Permission))
  add_defined none seen p by_name = Checked.invalid PolicyError.unknown_tool
  add_defined (some d) (some other) p by_name = Checked.invalid PolicyError.configured_twice
  add_defined (some d) none p by_name =
      then_check (check_permission d p)
        (λ checked. Checked.valid (insert p.tool_name checked by_name))

  abbrev pub add_permission :
      Permission → List (String × Permission) → Checked (List (String × Permission))
  add_permission p by_name =
      add_defined (definition_for p.tool_name) (lookup p.tool_name by_name) p by_name

  -- The loop over the permissions.
  unfoldable pub collect :
      List Permission → List (String × Permission) → Checked (List (String × Permission))
  collect [] by_name = Checked.valid by_name
  collect (p ∷ ps) by_name =
      then_check (add_permission (record p { tool_name = trim_space p.tool_name }) by_name)
        (collect ps)

  abbrev pub take_found : Option Permission → Checked Permission
  take_found none = Checked.invalid PolicyError.missing_tool
  take_found (some p) = Checked.valid p

  -- The loop over the definitions.
  unfoldable pub arrange : List Definition → List (String × Permission) → Checked (List Permission)
  arrange [] by_name = Checked.valid []
  arrange (d ∷ ds) by_name =
      then_check (take_found (lookup d.name by_name))
        (λ p. then_check (arrange ds by_name) (λ rest. Checked.valid (p ∷ rest)))

  -- `NormalizePermissions`
  unfoldable pub normalize_permissions : List Permission → Checked (List Permission)
  normalize_permissions permissions =
      if length permissions == length definitions
      then then_check (collect permissions []) (arrange definitions)
      else Checked.invalid PolicyError.wrong_count
