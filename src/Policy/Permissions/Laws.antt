-- ===== src/Policy/Permissions/Laws.antt =====
-- What is configured after a successful normalization.
use mathlib.Core.Path.{subst}
use materialmind.Common.{
  ◌≡◌, ◌≢◌, refl, sym, ap, ◌∙◌, inl, inr, String, Bool, true, false, Option, none, some, List, [],
  ◌∷◌, if◌then◌else◌, str_eq, ◌==◌, length, lookup, insert, lookup-insert, All, Bool-cases, eq_iff,
  arith,
}
use materialmind.Common.Text.{trim_space}
use materialmind.Policy.{
  Definition, TargetRule, Permission, definitions, definition_for, valid_confirmation_mode,
  contains_text, Checked, then_check,
}
use materialmind.Policy.Targets.{UrlLibrary, normalize_url_target}
use materialmind.Policy.Permissions.{
  is_before, insert_rule, sort_rules, rule_key, scope_fits, check_target, check_rule, check_rules,
  check_permission, add_defined, add_permission, collect, take_found, arrange,
  normalize_permissions,
}

-- A check that succeeds has succeeded in both parts.
then_check-valid :
    {A B : Type 0} (c : Checked A) (f : A → Checked B) (b : B)
    → then_check c f ≡ Checked.valid b
    → (a : A) × (c ≡ Checked.valid a) × (f a ≡ Checked.valid b)
then_check-valid (Checked.valid a) f b h = (a, refl, h)
then_check-valid (Checked.invalid e) f b h = absurd (ground arith)

-- A rule that its tool supports, with a mode that exists.
abbrev pub Supported : Definition → TargetRule → Type 0
Supported d rule =
    (contains_text d.supported_target_matchers rule.matcher ≡ true)
    × (valid_confirmation_mode rule.confirmation_mode ≡ true)

-- A permission of this tool that the tool's definition admits.
abbrev pub Admitted : String → Permission → Type 0
Admitted name p =
    (p.tool_name ≡ name)
    × ((d : Definition) × (definition_for name ≡ some d)
        × (valid_confirmation_mode p.confirmation_mode ≡ true)
        × (scope_fits d p.filesystem_scope ≡ true)
        × All (Supported d) p.target_rules)

-- One admitted permission for each definition, in their order.
abbrev pub Arranged : List Definition → List Permission → Type 0
Arranged [] [] = Unit
Arranged [] (p ∷ ps) = ⊥
Arranged (d ∷ ds) [] = ⊥
Arranged (d ∷ ds) (p ∷ ps) = Admitted d.name p × Arranged ds ps

insert_rule-All :
    (P : TargetRule → Type 0) (r : TargetRule) (rs : List TargetRule)
    → P r
    → All P rs
    → All P (insert_rule r rs)
insert_rule-All P r [] h hs = (h, tt)
insert_rule-All P r (q ∷ rs) h (hq, hs) = elim (Bool-cases (is_before q r)) [
  | inl first ↦ rw first (hq, insert_rule-All P r rs h hs)
  | inr behind ↦ rw behind (h, (hq, hs))
]

sort_rules-All : (P : TargetRule → Type 0) (rs : List TargetRule) → All P rs → All P (sort_rules rs)
sort_rules-All P [] hs = tt
sort_rules-All P (r ∷ rs) (h, hs) = insert_rule-All P r (sort_rules rs) h (sort_rules-All P rs hs)

found_new :
    (b : Bool) (checked : Permission) (old : Option Permission) (p : Permission)
    → b ≡ true
    → (if b then some checked else old) ≡ some p
    → checked ≡ p
found_new b checked old p hit h = ground arith

found_old :
    (b : Bool) (checked : Permission) (old : Option Permission) (p : Permission)
    → b ≡ false
    → (if b then some checked else old) ≡ some p
    → old ≡ some p
found_old b checked old p miss h = ground arith

nothing_in : (k : String) (p : Permission) → lookup k [] ≢ some p
unfolding lookup
nothing_in k p at = ground arith

module _ (lib : UrlLibrary) where
  check_target-kept :
      (rule checked : TargetRule) (seen : List String) (target : Option String)
      → check_target lib rule seen target ≡ Checked.valid checked
      → (checked.matcher ≡ rule.matcher) × (checked.confirmation_mode ≡ rule.confirmation_mode)
  check_target-kept rule checked seen none h = absurd (ground arith)
  check_target-kept rule checked seen (some target) h =
      elim (Bool-cases (contains_text seen (rule_key rule.matcher target))) [
        | inl again ↦ absurd (ground arith)
        | inr new ↦ (ground arith, ground arith)
      ]

  check_rule-Supported :
      (d : Definition) (seen : List String) (rule checked : TargetRule)
      → check_rule lib d seen rule ≡ Checked.valid checked
      → Supported d checked
  check_rule-Supported d seen rule checked h =
      elim (Bool-cases (contains_text d.supported_target_matchers rule.matcher)) [
        | inr unknown ↦ absurd (ground arith)
        | inl known ↦ elim (Bool-cases (valid_confirmation_mode rule.confirmation_mode)) [
          | inr bad ↦ absurd (ground arith)
          | inl good ↦
              let (matcher, mode) =
                check_target-kept rule checked seen
                  (normalize_url_target lib rule.matcher rule.target) (ground arith) in
              (
                ap (contains_text d.supported_target_matchers) matcher ∙ known,
                ap valid_confirmation_mode mode ∙ good,
              )
        ]
      ]

  check_rules-Supported :
      (d : Definition) (seen : List String) (rules checked : List TargetRule)
      → check_rules lib d seen rules ≡ Checked.valid checked
      → All (Supported d) checked
  check_rules-Supported d seen [] checked h =
      let empty : [] ≡ checked = ground arith in subst (All (Supported d)) empty tt
  check_rules-Supported d seen (rule ∷ rules) checked h =
      let (first, hfirst, hrest) =
        then_check-valid (check_rule lib d seen rule)
          (λ r.
            then_check (check_rules lib d (rule_key r.matcher r.target ∷ seen) rules)
              (λ rest. Checked.valid (r ∷ rest)))
          checked h in
      let (rest, hmore, hall) =
        then_check-valid (check_rules lib d (rule_key first.matcher first.target ∷ seen) rules)
          (λ rest. Checked.valid (first ∷ rest)) checked hrest in
      let all : first ∷ rest ≡ checked = ground arith in
      subst (All (Supported d)) all (
        check_rule-Supported d seen rule first hfirst,
        check_rules-Supported d (rule_key first.matcher first.target ∷ seen) rules rest hmore,
      )

  check_permission-Admitted :
      (d : Definition) (p checked : Permission)
      → definition_for p.tool_name ≡ some d
      → check_permission lib d p ≡ Checked.valid checked
      → Admitted p.tool_name checked
  check_permission-Admitted d p checked defined h =
      elim (Bool-cases (valid_confirmation_mode p.confirmation_mode)) [
        | inr bad ↦ absurd (ground arith)
        | inl mode ↦ elim (Bool-cases (scope_fits d p.filesystem_scope)) [
          | inr bad ↦ absurd (ground arith)
          | inl scope ↦
              let (rules, hrules, hend) =
                then_check-valid (check_rules lib d [] p.target_rules)
                  (λ rules. Checked.valid (record p { target_rules = sort_rules rules })) checked
                  (ground arith) in
              let same : record p { target_rules = sort_rules rules } ≡ checked = ground arith in
              subst (Admitted p.tool_name) same (
                refl,
                (
                  d,
                  defined,
                  mode,
                  scope,
                  sort_rules-All (Supported d) rules
                      (check_rules-Supported d [] p.target_rules rules hrules),
                ),
              )
        ]
      ]

  add_defined-Admitted :
      (definition : Option Definition) (seen : Option Permission) (p : Permission)
      (by_name later : List (String × Permission))
      → definition_for p.tool_name ≡ definition
      → add_defined lib definition seen p by_name ≡ Checked.valid later
      → (checked : Permission) × Admitted p.tool_name checked
        × (insert p.tool_name checked by_name ≡ later)
  add_defined-Admitted none seen p by_name later defined h = absurd (ground arith)
  add_defined-Admitted (some d) (some other) p by_name later defined h = absurd (ground arith)
  add_defined-Admitted (some d) none p by_name later defined h =
      let (checked, hchecked, hend) =
        then_check-valid (check_permission lib d p)
          (λ checked. Checked.valid (insert p.tool_name checked by_name)) later h in
      (checked, check_permission-Admitted d p checked defined hchecked, ground arith)

  insert-Admitted :
      (name : String) (checked : Permission) (by_name : List (String × Permission))
      → Admitted name checked
      → ((k : String) (p : Permission) → lookup k by_name ≡ some p → Admitted k p)
      → (k : String) (p : Permission) → lookup k (insert name checked by_name) ≡ some p
      → Admitted k p
  insert-Admitted name checked by_name good all k p at =
      let now = sym (lookup-insert name k checked by_name) ∙ at in
      elim (Bool-cases (str_eq name k)) [
        | inl hit ↦
            let same : checked ≡ p =
              found_new (str_eq name k) checked (lookup k by_name) p hit now in
            subst (λ j. Admitted j p) ((eq_iff name k).0 hit) (subst (Admitted name) same good)
        | inr miss ↦ all k p (found_old (str_eq name k) checked (lookup k by_name) p miss now)
      ]

  collect-Admitted :
      (permissions : List Permission) (by_name later : List (String × Permission))
      → ((k : String) (p : Permission) → lookup k by_name ≡ some p → Admitted k p)
      → collect lib permissions by_name ≡ Checked.valid later
      → (k : String) (p : Permission) → lookup k later ≡ some p
      → Admitted k p
  unfolding collect
  collect-Admitted [] by_name later all h =
      λ k p at. let same : by_name ≡ later = ground arith in all k p (ap (lookup k) same ∙ at)
  collect-Admitted (q ∷ qs) by_name later all h =
      let trimmed : Permission = record q { tool_name = trim_space q.tool_name } in
      let (next, hnext, hrest) =
        then_check-valid (add_permission lib trimmed by_name) (collect lib qs) later h in
      let (checked, good, inserted) =
        add_defined-Admitted (definition_for trimmed.tool_name) (lookup trimmed.tool_name by_name)
          trimmed by_name next refl hnext in
      collect-Admitted qs next later
        (λ k p at.
          insert-Admitted trimmed.tool_name checked by_name good all k p
            (ap (lookup k) inserted ∙ at))
        hrest

  taken :
      (found : Option Permission) (p : Permission)
      → take_found lib found ≡ Checked.valid p
      → found ≡ some p
  taken none p h = absurd (ground arith)
  taken (some q) p h = ground arith

  arrange-Arranged :
      (ds : List Definition) (by_name : List (String × Permission)) (result : List Permission)
      → ((k : String) (p : Permission) → lookup k by_name ≡ some p → Admitted k p)
      → arrange lib ds by_name ≡ Checked.valid result
      → Arranged ds result
  unfolding arrange
  arrange-Arranged [] by_name result all h =
      let empty : [] ≡ result = ground arith in subst (Arranged []) empty tt
  arrange-Arranged (d ∷ ds) by_name result all h =
      let (p, hp, hrest) =
        then_check-valid (take_found lib (lookup d.name by_name))
          (λ p. then_check (arrange lib ds by_name) (λ rest. Checked.valid (p ∷ rest))) result h in
      let (rest, hmore, hend) =
        then_check-valid (arrange lib ds by_name) (λ rest. Checked.valid (p ∷ rest)) result hrest in
      let same : p ∷ rest ≡ result = ground arith in
      subst (Arranged (d ∷ ds)) same (
        all d.name p (taken (lookup d.name by_name) p hp),
        arrange-Arranged ds by_name rest all hmore,
      )

  -- Permissions that are normalized are complete: one for each tool, in the order of the
  -- definitions, each with a mode that exists, a scope that its tool supports, and only target
  -- rules that its tool supports, with modes that exist.
  pub normalize_permissions-Arranged :
      (permissions result : List Permission)
      → normalize_permissions lib permissions ≡ Checked.valid result
      → Arranged definitions result
  unfolding normalize_permissions
  normalize_permissions-Arranged permissions result h =
      elim (Bool-cases (length permissions == length definitions)) [
        | inr wrong ↦ absurd (ground arith)
        | inl right ↦
            let (by_name, hcollect, harrange) =
              then_check-valid (collect lib permissions []) (arrange lib definitions) result
                (ground arith) in
            arrange-Arranged definitions by_name result
              (collect-Admitted permissions [] by_name (λ k p at. absurd (nothing_in k p at))
                hcollect)
              harrange
      ]
