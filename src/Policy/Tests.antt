-- ===== src/Policy/Tests.antt =====
-- The policy on concrete inputs.
use Prim.Native.String.{◌++◌ as text_append}
use materialmind.Common.{
  ℕ, zero, suc, ◌≡◌, ◌∙◌, ap, refl, true, str_eq, ◌⊎◌, String, false, some, [], ◌∷◌, get_elem?,
  arith, lookup, insert, eq_iff,
}
use materialmind.Common.Text.{trim_space}
use materialmind.Policy.{
  TargetRule, Permission, Checked, definitions, default_permissions, target_exact_url,
  target_origin, confirmation_allow, confirmation_ask,
}
use materialmind.Policy.Targets.{
  UrlLibrary, normalize_url_target, confirmation_for_url, trim_dot, has_colon,
}
use materialmind.Policy.Targets.Laws.{
  Rules, confirmation_for_url-source, confirmation_for_url-exact,
}
use materialmind.Policy.Permissions.{collect, arrange, normalize_permissions}
use materialmind.Policy.Permissions.Laws.{Arranged, normalize_permissions-Arranged}

-- A library that knows one URL.
abbrev lib : UrlLibrary
lib = record {
  parse = λ text. some (record {
    scheme = "https";
    opaque = "";
    has_user = false;
    hostname = "example.com.";
    port = "443";
    rest = "/a";
  });
  to_lower = λ text. text;
  render = λ scheme host rest. text_append scheme (text_append "://" (text_append host rest));
}

abbrev raw_url : String
raw_url = " https://example.com.:443/a "

abbrev exact_rule : TargetRule
exact_rule = record {
  matcher = target_exact_url;
  target = "https://example.com/a";
  confirmation_mode = confirmation_ask;
}

abbrev origin_rule : TargetRule
origin_rule = record {
  matcher = target_origin;
  target = "https://example.com";
  confirmation_mode = confirmation_allow;
}

abbrev fetching : Permission
fetching = record {
  tool_name = "fetch_url";
  confirmation_mode = confirmation_ask;
  filesystem_scope = "";
  target_rules = origin_rule ∷ exact_rule ∷ [];
}

address : normalize_url_target lib target_exact_url raw_url ≡ some "https://example.com/a"
unfolding normalize_url_target trim_space trim_dot has_colon
address = refl

asked : confirmation_for_url lib fetching raw_url ≡ some confirmation_ask
unfolding confirmation_for_url normalize_url_target trim_space trim_dot has_colon
asked = refl

confirmation_for_url-source_example :
    (exact : String) × (origin : String) × (normalize_url_target lib target_exact_url raw_url
      ≡ some exact)
    × (normalize_url_target lib target_origin raw_url ≡ some origin)
    × (Rules lib fetching target_exact_url exact confirmation_ask
        ⊎ Rules lib fetching target_origin origin confirmation_ask
        ⊎ (fetching.confirmation_mode ≡ confirmation_ask))
confirmation_for_url-source_example =
    confirmation_for_url-source lib fetching raw_url confirmation_ask asked

agreed :
    (r : TargetRule) (j : ℕ)
    → get_elem? fetching.target_rules j ≡ some r
    → r.matcher ≡ target_exact_url
    → r.target ≡ "https://example.com/a"
    → r.confirmation_mode ≡ confirmation_ask
agreed r zero at m t =
    let same : origin_rule ≡ r = ground arith in
    let equal : str_eq target_origin target_exact_url ≡ true =
      (eq_iff target_origin target_exact_url).1 (ap TargetRule.matcher same ∙ m) in
    cc
agreed r (suc zero) at m t = ground arith
agreed r (suc (suc j)) at m t = absurd (ground arith)

confirmation_for_url-exact_example :
    confirmation_for_url lib fetching raw_url ≡ some confirmation_ask
confirmation_for_url-exact_example =
    confirmation_for_url-exact lib fetching raw_url "https://example.com/a" exact_rule 1 address
      refl refl refl agreed

normalized : normalize_permissions lib default_permissions ≡ Checked.valid default_permissions
unfolding normalize_permissions collect arrange lookup insert trim_space
normalized = refl

normalize_permissions-Arranged_example : Arranged definitions default_permissions
normalize_permissions-Arranged_example =
    normalize_permissions-Arranged lib default_permissions default_permissions normalized
