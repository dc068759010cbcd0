-- ===== src/Workspace/Proposal/Resolved.antt =====
-- The paths of the changes, resolved below one root.
use mathlib.Core.Path.{subst}
use materialmind.Common.{
  eq_iff, sym, ◌≡◌, refl, true, Option, none, some, List, [], ◌∷◌, arith, Bool-cases, inl, inr,
  String,
}
use materialmind.Workspace.Access.{FilesystemAccess, ResolvedPath, resolve}
use materialmind.Workspace.Files.{Host}
use materialmind.Workspace.Changes.{NormalChange, same_path, same_parts}
use materialmind.Workspace.Paths.{CleanPath}
use materialmind.Workspace.Proposal.{
  System, Built, resolve_changes, path_text, take_resolved, add_resolved, root_of,
}

pub built_inj {ℓ} : {A : Type ℓ} (a b : A) → Built.built a ≡ Built.built b → a ≡ b
built_inj a b h = ground arith

-- Paths with the same parts are the same.
same_parts_lem : (a b : List String) → same_parts a b ≡ true → a ≡ b
same_parts_lem [] [] same = refl
same_parts_lem [] (part ∷ b) same = absurd (ground arith)
same_parts_lem (part ∷ a) [] same = absurd (ground arith)
same_parts_lem (part ∷ a) (other ∷ b) same =
    let rest : a ≡ b = same_parts_lem a b (ground arith) in ground (arith, eq_iff part other)

same_path_lem : (a b : CleanPath) → same_path a b ≡ true → a ≡ b
same_path_lem a b same =
    let parts : a.parts ≡ b.parts = same_parts_lem a.parts b.parts (ground arith) in ground arith

-- A path for each change, as the scopes resolve it, all below one root.
abbrev pub Paired : FilesystemAccess → CleanPath → List NormalChange → List ResolvedPath → Type 0
Paired access root [] [] = Unit
Paired access root [] (path ∷ paths) = ⊥
Paired access root (change ∷ changes) [] = ⊥
Paired access root (change ∷ changes) (path ∷ paths) =
    (resolve access (path_text change.path) ≡ some path)
    × (path.root_path ≡ root)
    × Paired access root changes paths

module _ (host : Host) (system : System) where
  -- A root that is known already, or that of the first path.
  abbrev pub root_or : Option CleanPath → List ResolvedPath → CleanPath
  root_or none paths = root_of host system paths
  root_or (some root) paths = root

  add_resolved-Paired :
      (access : FilesystemAccess) (root : Option CleanPath) (change : NormalChange)
      (changes : List NormalChange) (path : ResolvedPath) (r : Built (List ResolvedPath))
      (paths : List ResolvedPath)
      → resolve access (path_text change.path) ≡ some path
      → ((later : List ResolvedPath) → path.root_path ≡ root_or root (path ∷ later))
      → ((later : List ResolvedPath)
          → r ≡ Built.built later
          → Paired access (root_or root (path ∷ later)) changes later)
      → add_resolved path r ≡ Built.built paths
      → Paired access (root_or root paths) (change ∷ changes) paths
  add_resolved-Paired access root change changes path (Built.built later) paths is_path rooted rest
        h =
      subst (λ paths. Paired access (root_or root paths) (change ∷ changes) paths)
        (built_inj (path ∷ later) paths h) (is_path, rooted later, rest later refl)
  add_resolved-Paired access root change changes path (Built.build_failed e) paths is_path rooted
        rest h =
      absurd (ground arith)

  take_resolved-Paired :
      (access : FilesystemAccess) (change : NormalChange) (changes : List NormalChange)
      (root : Option CleanPath) (next : CleanPath → Built (List ResolvedPath))
      (found : Option ResolvedPath) (paths : List ResolvedPath)
      → resolve access (path_text change.path) ≡ found
      → ((root : CleanPath) (later : List ResolvedPath)
          → next root ≡ Built.built later
          → Paired access root changes later)
      → take_resolved root next found ≡ Built.built paths
      → Paired access (root_or root paths) (change ∷ changes) paths
  take_resolved-Paired access change changes root next none paths is_found rest h =
      absurd (ground arith)
  take_resolved-Paired access change changes none next (some path) paths is_found rest h =
      add_resolved-Paired access none change changes path (next path.root_path) paths is_found
        (λ later. refl) (rest path.root_path) h
  take_resolved-Paired access change changes (some root) next (some path) paths is_found rest h =
      elim (Bool-cases (same_path root path.root_path)) [
        | inl same ↦
            add_resolved-Paired access (some root) change changes path (next root) paths is_found
              (λ later. sym (same_path_lem root path.root_path same)) (rest root) (rw same at h)
        | inr differ ↦ absurd (ground arith)
      ]

  -- The paths that are resolved, each below the root that is known or the first one's.
  pub resolve_changes-Paired :
      (access : FilesystemAccess) (changes : List NormalChange) (root : Option CleanPath)
      (paths : List ResolvedPath)
      → resolve_changes access root changes ≡ Built.built paths
      → Paired access (root_or root paths) changes paths
  unfolding resolve_changes
  resolve_changes-Paired access [] root paths h =
      subst (λ paths. Paired access (root_or root paths) [] paths) (built_inj [] paths h) tt
  resolve_changes-Paired access (change ∷ changes) root paths h =
      take_resolved-Paired access change changes root
        (λ root. resolve_changes access (some root) changes)
        (resolve access (path_text change.path)) paths refl
        (λ root later is_later. resolve_changes-Paired access changes (some root) later is_later) h
