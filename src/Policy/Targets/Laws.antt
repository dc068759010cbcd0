-- ===== src/Policy/Targets/Laws.antt =====
-- Whether a URL is confirmed: no URL is allowed without a rule or a mode that allows it.
use materialmind.Common.{
  ◌≡◌, ◌≢◌, refl, sym, ap, ◌∙◌, ◌⊎◌, inl, inr, String, Bool, true, false, ◌&&◌, some, List, [], ◌∷◌,
  str_eq, Bool-cases, Option-cases, eq_iff, arith, get_elem?, ℕ, zero, suc,
}
use materialmind.Common.Text.{trim_space}
use materialmind.Policy.{TargetRule, Permission, target_exact_url, target_origin}
use materialmind.Policy.Targets.{
  Url, UrlLibrary, normalize_parsed, normalize_url_target, rule_mode, or_mode, confirmation_for_url,
}

hits : (a b : Bool) → a ≡ true → b ≡ true → (a && b) ≢ false
hits a b p q h = ground arith

not_first :
    (r : TargetRule) (rs : List TargetRule) (rule : TargetRule) (i : ℕ) (matcher target : String)
    → get_elem? (r ∷ rs) i ≡ some rule
    → rule.matcher ≡ matcher
    → rule.target ≡ target
    → (str_eq r.matcher matcher && str_eq r.target target) ≡ false
    → (later : ℕ) × (get_elem? rs later ≡ some rule)
not_first r rs rule zero matcher target at m t miss =
    let same : r ≡ rule = ground arith in
    absurd (
      hits (str_eq r.matcher matcher) (str_eq r.target target)
        ((eq_iff r.matcher matcher).1 (ap TargetRule.matcher same ∙ m))
        ((eq_iff r.target target).1 (ap TargetRule.target same ∙ t)) miss)
not_first r rs rule (suc i) matcher target at m t miss = (i, at)

module _ (lib : UrlLibrary) where
  -- A rule of the permission with this matcher and target, and its mode.
  abbrev pub Rules : Permission → String → String → String → Type 0
  Rules permission matcher target mode =
      (rule : TargetRule) × (i : ℕ) × (get_elem? permission.target_rules i ≡ some rule)
      × (rule.matcher ≡ matcher)
      × (rule.target ≡ target)
      × (rule.confirmation_mode ≡ mode)

  rule_mode-some :
      (matcher target mode : String) (rules : List TargetRule)
      → rule_mode lib matcher target rules ≡ some mode
      → (rule : TargetRule) × (i : ℕ) × (get_elem? rules i ≡ some rule)
        × (rule.matcher ≡ matcher)
        × (rule.target ≡ target)
        × (rule.confirmation_mode ≡ mode)
  rule_mode-some matcher target mode [] h = absurd (ground arith)
  rule_mode-some matcher target mode (r ∷ rs) h =
      elim (Bool-cases (str_eq r.matcher matcher && str_eq r.target target)) [
        | inl hit ↦ (
          r,
          0,
          refl,
          (eq_iff r.matcher matcher).0 (ground arith),
          (eq_iff r.target target).0 (ground arith),
          ground arith,
        )
        | inr miss ↦
            let (rule, i, at, m, t, c) = rule_mode-some matcher target mode rs (ground arith) in
            (rule, suc i, at, m, t, c)
      ]

  confirmation_for_url-modes :
      (permission : Permission) (raw_url mode : String)
      → confirmation_for_url lib permission raw_url ≡ some mode
      → (exact : String) × (origin : String) × (normalize_url_target lib target_exact_url raw_url
          ≡ some exact)
        × (normalize_url_target lib target_origin raw_url ≡ some origin)
        × (or_mode lib (rule_mode lib target_exact_url exact permission.target_rules) (
              or_mode lib
                (rule_mode lib target_origin origin permission.target_rules)
                permission.confirmation_mode)
            ≡ mode)
  unfolding confirmation_for_url
  confirmation_for_url-modes permission raw_url mode h =
      elim (Option-cases (normalize_url_target lib target_exact_url raw_url)) [
        | inl bad ↦ absurd (ground arith)
        | inr (exact, e) ↦ elim (Option-cases (normalize_url_target lib target_origin raw_url)) [
          | inl bad ↦ absurd (ground arith)
          | inr (origin, o) ↦ (exact, origin, e, o, ground arith)
        ]
      ]

  -- The mode of a URL is that of a rule for exactly its address, or for its origin, or the
  -- permission's own: a URL is allowed only where one of these allows it.
  pub confirmation_for_url-source :
      (permission : Permission) (raw_url mode : String)
      → confirmation_for_url lib permission raw_url ≡ some mode
      → (exact : String) × (origin : String) × (normalize_url_target lib target_exact_url raw_url
          ≡ some exact)
        × (normalize_url_target lib target_origin raw_url ≡ some origin)
        × (Rules permission target_exact_url exact mode
            ⊎ Rules permission target_origin origin mode
            ⊎ (permission.confirmation_mode ≡ mode))
  confirmation_for_url-source permission raw_url mode h =
      let (exact, origin, e, o, found) = confirmation_for_url-modes permission raw_url mode h in
      (
        exact,
        origin,
        e,
        o,
        elim (Option-cases (rule_mode lib target_exact_url exact permission.target_rules)) [
          | inr (first, hit) ↦
              inl
                (rule_mode-some target_exact_url exact mode permission.target_rules (ground arith))
          | inl miss ↦
              elim (Option-cases (rule_mode lib target_origin origin permission.target_rules)) [
                | inr (first, hit) ↦ inr (
                    inl (
                      rule_mode-some target_origin origin mode permission.target_rules
                        (ground arith)))
                | inl none_left ↦ inr (inr (ground arith))
              ]
        ],
      )

  -- A URL with an address has an origin.
  normalize_parsed-origin :
      (url : Url) (exact : String)
      → normalize_parsed lib target_exact_url url ≡ some exact
      → (origin : String) × (normalize_parsed lib target_origin url ≡ some origin)
  normalize_parsed-origin url exact h =
      elim (Option-cases (normalize_parsed lib target_origin url)) [
        | inl bad ↦ absurd (ground (arith, eq_iff target_origin target_exact_url))
        | inr (origin, o) ↦ (origin, o)
      ]

  normalize_url_target-parsed :
      (matcher raw_url : String) (url : Url)
      → str_eq (trim_space raw_url) "" ≡ false
      → lib.parse (trim_space raw_url) ≡ some url
      → normalize_url_target lib matcher raw_url ≡ normalize_parsed lib matcher url
  unfolding normalize_url_target
  normalize_url_target-parsed matcher raw_url url visible parsed = rw (visible, parsed) refl

  normalize_url_target-cases :
      (matcher raw_url target : String)
      → normalize_url_target lib matcher raw_url ≡ some target
      → (str_eq (trim_space raw_url) "" ≡ false)
        × ((url : Url) × (lib.parse (trim_space raw_url) ≡ some url))
  unfolding normalize_url_target
  normalize_url_target-cases matcher raw_url target h =
      elim (Option-cases (lib.parse (trim_space raw_url))) [
        | inl bad ↦ absurd (ground arith)
        | inr (url, parsed) ↦ (ground arith, (url, parsed))
      ]

  normalize_url_target-origin :
      (raw_url exact : String)
      → normalize_url_target lib target_exact_url raw_url ≡ some exact
      → (origin : String) × (normalize_url_target lib target_origin raw_url ≡ some origin)
  normalize_url_target-origin raw_url exact h =
      let (visible, (url, parsed)) = normalize_url_target-cases target_exact_url raw_url exact h in
      let (origin, o) =
        normalize_parsed-origin url exact
          (sym (normalize_url_target-parsed target_exact_url raw_url url visible parsed) ∙ h) in
      (origin, normalize_url_target-parsed target_origin raw_url url visible parsed ∙ o)

  rule_mode-agree :
      (matcher target mode : String) (rules : List TargetRule) (rule : TargetRule) (i : ℕ)
      → get_elem? rules i ≡ some rule
      → rule.matcher ≡ matcher
      → rule.target ≡ target
      → ((r : TargetRule) (j : ℕ)
          → get_elem? rules j ≡ some r
          → r.matcher ≡ matcher
          → r.target ≡ target
          → r.confirmation_mode ≡ mode)
      → rule_mode lib matcher target rules ≡ some mode
  rule_mode-agree matcher target mode [] rule i at m t agree = absurd (ground arith)
  rule_mode-agree matcher target mode (r ∷ rs) rule i at m t agree =
      elim (Bool-cases (str_eq r.matcher matcher && str_eq r.target target)) [
        | inl hit ↦ rw hit (
            ap some (
              agree r 0 refl ((eq_iff r.matcher matcher).0 (ground arith))
                ((eq_iff r.target target).0 (ground arith))))
        | inr miss ↦
            let (later, at_later) = not_first r rs rule i matcher target at m t miss in
            rw miss (
              rule_mode-agree matcher target mode rs rule later at_later m t
                (λ q j at_j. agree q (suc j) at_j))
      ]

  confirmation_for_url-eq :
      (permission : Permission) (raw_url exact origin mode : String)
      → normalize_url_target lib target_exact_url raw_url ≡ some exact
      → normalize_url_target lib target_origin raw_url ≡ some origin
      → rule_mode lib target_exact_url exact permission.target_rules ≡ some mode
      → confirmation_for_url lib permission raw_url ≡ some mode
  unfolding confirmation_for_url
  confirmation_for_url-eq permission raw_url exact origin mode e o hit = rw (e, o, hit) refl

  -- A rule for exactly the address of a URL decides, wherever it stands among the rules and
  -- whatever they say of the origin, when the rules for this address agree on its mode.
  pub confirmation_for_url-exact :
      (permission : Permission) (raw_url exact : String) (rule : TargetRule) (i : ℕ)
      → normalize_url_target lib target_exact_url raw_url ≡ some exact
      → get_elem? permission.target_rules i ≡ some rule
      → rule.matcher ≡ target_exact_url
      → rule.target ≡ exact
      → ((r : TargetRule) (j : ℕ)
          → get_elem? permission.target_rules j ≡ some r
          → r.matcher ≡ target_exact_url
          → r.target ≡ exact
          → r.confirmation_mode ≡ rule.confirmation_mode)
      → confirmation_for_url lib permission raw_url ≡ some rule.confirmation_mode
  confirmation_for_url-exact permission raw_url exact rule i e at m t agree =
      let (origin, o) = normalize_url_target-origin raw_url exact e in
      confirmation_for_url-eq permission raw_url exact origin rule.confirmation_mode e o (
        rule_mode-agree target_exact_url exact rule.confirmation_mode permission.target_rules rule i
          at m t agree)
