-- ===== src/Policy/Targets.antt =====
-- Targets of rules, and whether a URL is confirmed: `NormalizeURLTarget` and `ConfirmationForURL`.
pub mod Laws
use Prim.Native.String.{◌++◌ as text_append}
use materialmind.Common.{
  ◌≡◌, ◌≢◌, refl, sym, ap, ◌∙◌, ◌⊎◌, inl, inr, String, Bool, true, false, ◌&&◌, ◌||◌, not, Option,
  none, some, List, [], ◌∷◌, if◌then◌else◌, ◌==◌, str_eq, ◌>>=◌, Bool-cases, Option-cases, eq_iff,
  arith, get_elem?, ℕ, zero, suc,
}
use Prim.Native.Char.{code}
use materialmind.Common.Text.{trim_space}
use materialmind.Policy.{TargetRule, Permission, target_exact_url, target_origin}

-- A parsed URL: `rest` is what follows the host, the fragment left out.
pub record Url : Type 0 where
  pub scheme : String
  pub opaque : String
  pub has_user : Bool
  pub hostname : String
  pub port : String
  pub rest : String

pub record UrlLibrary : Type 0 where
  pub parse : String → Option Url
  pub to_lower : String → String
  pub render : String → String → String → String

-- `strings.TrimSuffix(s, ".")`
unfoldable pub trim_dot : String → String
trim_dot String.[] = String.[]
trim_dot (String.◌∷◌ c s) =
    let rest = trim_dot s in if str_eq (String.◌∷◌ c s) "." then String.[] else String.◌∷◌ c rest

-- `strings.Contains(s, ":")`
unfoldable pub has_colon : String → Bool
has_colon String.[] = false
has_colon (String.◌∷◌ c s) = code c == 0x3a || has_colon s

module _ (lib : UrlLibrary) where
  -- The port that is written: not the scheme's own.
  abbrev pub written_port : String → String → String
  written_port scheme port =
      if (str_eq scheme "http" && str_eq port "80") || (str_eq scheme "https" && str_eq port "443")
      then ""
      else port

  abbrev pub written_host : String → String → String
  written_host hostname port =
      let host : String =
        if has_colon hostname then text_append "[" (text_append hostname "]") else hostname in
      if str_eq port "" then host else text_append host (text_append ":" port)

  abbrev pub render_target : String → String → String → String → Option String
  render_target matcher scheme host rest =
      if str_eq matcher target_exact_url
      then some (lib.render scheme host rest)
      else (if str_eq matcher target_origin then some (lib.render scheme host "") else none)

  abbrev pub normalize_parsed : String → Url → Option String
  normalize_parsed matcher url =
      let scheme = lib.to_lower url.scheme in
      let hostname = lib.to_lower (trim_dot url.hostname) in
      if not (str_eq url.opaque "")
        || not (str_eq scheme "http" || str_eq scheme "https")
        || str_eq url.hostname ""
        || url.has_user
      then none
      else render_target matcher scheme (written_host hostname (written_port scheme url.port))
          url.rest

  -- `NormalizeURLTarget`, `none` for an error
  unfoldable pub normalize_url_target : String → String → Option String
  normalize_url_target matcher raw_url =
      if str_eq (trim_space raw_url) ""
      then none
      else (lib.parse (trim_space raw_url) >>= (λ url. normalize_parsed matcher url))

  -- A loop of `ConfirmationForURL`: the mode of the first rule with this matcher and target.
  abbrev pub rule_mode : String → String → List TargetRule → Option String
  rule_mode matcher target [] = none
  rule_mode matcher target (rule ∷ rules) =
      if str_eq rule.matcher matcher && str_eq rule.target target
      then some rule.confirmation_mode
      else rule_mode matcher target rules

  abbrev pub or_mode : Option String → String → String
  or_mode none mode = mode
  or_mode (some first) mode = first

  -- `ConfirmationForURL`, `none` for an error
  unfoldable pub confirmation_for_url : Permission → String → Option String
  confirmation_for_url permission raw_url =
      normalize_url_target target_exact_url raw_url >>= (λ exact.
        normalize_url_target target_origin raw_url >>= (λ origin. some (
          or_mode (rule_mode target_exact_url exact permission.target_rules) (
            or_mode (rule_mode target_origin origin permission.target_rules)
              permission.confirmation_mode))))
