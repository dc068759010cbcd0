-- ===== src/Workspace/Access/Laws.antt =====
-- What a tool may address lies within its boundary.
use mathlib.Core.Path.{subst}
use materialmind.Common.{
  ◌≡◌, ◌∙◌, inl, inr, refl, sym, ap, String, Bool, true, false, ◌||◌, Option, none, some, List, [],
  ◌∷◌, ◌++◌, map, str_eq, All, arith, eq_iff, Bool-cases,
}
use materialmind.Common.Text.{trim_space}
use materialmind.Workspace.Paths.{
  CleanPath, split_slash, is_abs, clean, clean_parts, rel, starts_up, reverse_onto, push_part,
  pop_part, push_parts, uncommon, up_to,
}
use materialmind.Workspace.Access.{
  FilesystemAccess, ResolvedPath, shown_path, directory, find_from, find_repository_root,
  repository_access, with_boundary, access_of, access_if_absolute, new_filesystem_access, or_dot,
  path_escapes, absolute_path, boundary_of, resolve_relative, resolve,
}

-- A part that does not lead up.
abbrev pub NotUp : String → Type 0
NotUp part = str_eq part ".." ≡ false

pop_part-NotUp : (stack : List String) → All NotUp stack → All NotUp (pop_part true stack)
pop_part-NotUp [] h = tt
pop_part-NotUp (top ∷ stack) (first, rest) = rw first rest

push_part-NotUp :
    (stack : List String) (part : String) → All NotUp stack → All NotUp (push_part true stack part)
push_part-NotUp stack part h = elim (Bool-cases (str_eq part "" || str_eq part ".")) [
  | inl skipped ↦ rw skipped h
  | inr kept ↦ elim (Bool-cases (str_eq part "..")) [
    | inl up ↦ rw (kept, up) (pop_part-NotUp stack h)
    | inr down ↦ rw (kept, down) (down, h)
  ]
]

push_parts-NotUp :
    (stack parts : List String) → All NotUp stack → All NotUp (push_parts true stack parts)
unfolding push_parts
push_parts-NotUp stack [] h = h
push_parts-NotUp stack (part ∷ parts) h =
    push_parts-NotUp (push_part true stack part) parts (push_part-NotUp stack part h)

reverse_onto-NotUp :
    (done stack : List String)
    → All NotUp done
    → All NotUp stack
    → All NotUp (reverse_onto done stack)
reverse_onto-NotUp done [] h h' = h
reverse_onto-NotUp done (part ∷ stack) h (first, rest) =
    reverse_onto-NotUp (part ∷ done) stack (first, h) rest

-- An absolute path that is cleaned has no part that leads up.
clean_parts-NotUp : (parts : List String) → All NotUp (clean_parts true parts).parts
clean_parts-NotUp parts =
    reverse_onto-NotUp [] (push_parts true [] parts) tt (push_parts-NotUp [] parts tt)

-- What is left of a path behind the whole base.
uncommon-append :
    (base target rest : List String) → uncommon base target ≡ ([], rest) → target ≡ base ++ rest
uncommon-append [] target rest h = ap (λ (p : List String × List String). p.1) h
uncommon-append (b ∷ base) [] rest h = absurd (ground arith)
uncommon-append (b ∷ base) (t ∷ target) rest h = elim (Bool-cases (str_eq b t)) [
  | inl same ↦
      let below : target ≡ base ++ rest = uncommon-append base target rest (ground arith) in
      grind (arith, eq_iff b t)
  | inr apart ↦ absurd (ground arith)
]

append-uncommon : (base rest : List String) → uncommon base (base ++ rest) ≡ ([], rest)
append-uncommon [] rest = refl
append-uncommon (b ∷ base) rest = ground (arith, append-uncommon base rest, eq_iff b b)

some_inj {ℓ} : {A : Type ℓ} (a b : A) → some a ≡ some b → a ≡ b
some_inj a b h = ground arith

up_to_here :
    (p : List String × List String) (relative : CleanPath)
    → up_to p ≡ some relative
    → path_escapes relative ≡ false
    → (p ≡ ([], relative.parts))
up_to_here ([], target) relative h h' = ground arith
up_to_here (b ∷ base, target) relative h h' = elim (Bool-cases (str_eq b "..")) [
  | inl up ↦ absurd (ground arith)
  | inr down ↦
      let way : CleanPath = record {
        absolute = false;
        parts = ".." ∷ (map (λ part. "..") base ++ target);
      } in
      let is_way : up_to (b ∷ base, target) ≡ some way = rw down refl in
      let same : way ≡ relative = some_inj way relative (sym is_way ∙ h) in
      absurd (cc (ap path_escapes same, h'))
]

-- A relative path that does not escape leads from the base to the target.
rel-append :
    (base target relative : CleanPath)
    → base.absolute ≡ true
    → rel base target ≡ some relative
    → path_escapes relative ≡ false
    → (target.parts ≡ base.parts ++ relative.parts) × (target.absolute ≡ true)
rel-append base target relative rooted h h' = elim (Bool-cases target.absolute) [
  | inl both ↦
      let here : up_to (uncommon base.parts target.parts) ≡ some relative = ground arith in
      (
        uncommon-append base.parts target.parts relative.parts
            (up_to_here (uncommon base.parts target.parts) relative here h'),
        both,
      )
  | inr differ ↦ absurd (ground arith)
]

-- A resolved path: what is below the boundary has no part that leads up.
pub record Confined (access : FilesystemAccess) (r : ResolvedPath) : Type 0 where
  pub boundary : r.root_path ≡ boundary_of access
  pub below : r.absolute.parts ≡ r.root_path.parts ++ r.root_relative.parts
  pub rooted : r.absolute.absolute ≡ true
  pub no_up : All NotUp r.absolute.parts

abbrev pub IsRooted : FilesystemAccess → Type 0
IsRooted access = (access.workspace_root.absolute ≡ true) × ((boundary_of access).absolute ≡ true)

abbrev IsRootedOption : Option CleanPath → Type 0
IsRootedOption none = Unit
IsRootedOption (some path) = path.absolute ≡ true

with_boundary-IsRooted :
    (root : CleanPath) (scope : String) (boundary : Option CleanPath) (access : FilesystemAccess)
    → root.absolute ≡ true
    → IsRootedOption boundary
    → with_boundary root scope boundary ≡ some access
    → IsRooted access
with_boundary-IsRooted root scope none access rooted h h' =
    subst IsRooted
      (some_inj (record { workspace_root = root; boundary_root = none; scope = scope }) access h')
      (rooted, refl)
with_boundary-IsRooted root scope (some found) access rooted h h' =
    subst IsRooted
      (some_inj (record { workspace_root = root; boundary_root = some found; scope = scope }) access
        h')
      (rooted, h)

repository_access-IsRooted :
    (root : CleanPath) (scope : String) (found : Option CleanPath) (access : FilesystemAccess)
    → root.absolute ≡ true
    → IsRootedOption found
    → repository_access root scope found ≡ some access
    → IsRooted access
repository_access-IsRooted root scope none access rooted h h' = absurd (ground arith)
repository_access-IsRooted root scope (some found) access rooted h h' =
    with_boundary-IsRooted root scope (some found) access rooted h h'

find_from-IsRooted :
    (marked : CleanPath → Bool) (stack : List String) → IsRootedOption (find_from marked stack)
find_from-IsRooted marked [] = elim (Bool-cases (marked (directory []))) [
  | inl here ↦ rw here refl
  | inr nowhere ↦ rw nowhere tt
]
find_from-IsRooted marked (part ∷ stack) = elim (Bool-cases (marked (directory (part ∷ stack)))) [
  | inl here ↦ rw here refl
  | inr above ↦ rw above (find_from-IsRooted marked stack)
]

access_of-IsRooted :
    (marked : CleanPath → Bool) (root : CleanPath) (scope : String) (access : FilesystemAccess)
    → root.absolute ≡ true
    → access_of marked root scope ≡ some access
    → IsRooted access
access_of-IsRooted marked root scope access rooted h =
    elim (Bool-cases (str_eq scope "workspace")) [
      | inl workspace ↦
          with_boundary-IsRooted root scope (some root) access rooted rooted (rw workspace at h)
      | inr other ↦
          let h1 = rw other at h in
          elim (Bool-cases (str_eq scope "repository")) [
            | inl repository ↦
                repository_access-IsRooted root scope (find_repository_root marked root) access
                  rooted (find_from-IsRooted marked (reverse_onto [] root.parts))
                  (rw repository at h1)
            | inr not_repository ↦
                let h2 = rw not_repository at h1 in
                elim (Bool-cases (str_eq scope "computer")) [
                  | inl computer ↦
                      with_boundary-IsRooted root scope none access rooted tt (rw computer at h2)
                  | inr unknown ↦ absurd (ground arith)
                ]
          ]
    ]

access_if_absolute-IsRooted :
    (marked : CleanPath → Bool) (root : CleanPath) (scope : String) (access : FilesystemAccess)
    → access_if_absolute marked root scope ≡ some access
    → IsRooted access
access_if_absolute-IsRooted marked root scope access h = elim (Bool-cases root.absolute) [
  | inl rooted ↦
      let h' : access_of marked root scope ≡ some access = ground arith in
      access_of-IsRooted marked root scope access rooted h'
  | inr relative ↦ absurd (ground arith)
]

new_filesystem_access-IsRooted :
    (marked : CleanPath → Bool) (raw_root scope : String) (access : FilesystemAccess)
    → new_filesystem_access marked raw_root scope ≡ some access
    → IsRooted access
unfolding new_filesystem_access
new_filesystem_access-IsRooted marked raw_root scope access h =
    access_if_absolute-IsRooted marked (clean (trim_space raw_root)) scope access h

absolute_path-rooted :
    (access : FilesystemAccess) (native : String)
    → IsRooted access
    → (absolute_path access native).absolute ≡ true
absolute_path-rooted access native (root, boundary) = ground arith

absolute_path-NotUp :
    (access : FilesystemAccess) (native : String)
    → IsRooted access
    → All NotUp (absolute_path access native).parts
absolute_path-NotUp access native (root, boundary) = elim (Bool-cases (is_abs native)) [
  | inl abs ↦ rw abs (clean_parts-NotUp (split_slash native))
  | inr not_abs ↦
      rw (not_abs, root) (clean_parts-NotUp (access.workspace_root.parts ++ split_slash native))
]

resolve_relative-Confined :
    (access : FilesystemAccess) (native : String) (absolute : CleanPath)
    (relative : Option CleanPath) (r : ResolvedPath)
    → IsRooted access
    → All NotUp absolute.parts
    → rel (boundary_of access) absolute ≡ relative
    → resolve_relative access native absolute relative ≡ some r
    → Confined access r
resolve_relative-Confined access native absolute none r rooted no_up is_rel h =
    absurd (ground arith)
resolve_relative-Confined access native absolute (some relative) r rooted no_up is_rel h =
    elim (Bool-cases (path_escapes relative)) [
      | inl escapes ↦ absurd (ground arith)
      | inr stays ↦
          let made : ResolvedPath = record {
            root_path = boundary_of access;
            root_relative = relative;
            display = shown_path access native absolute;
            absolute = absolute;
          } in
          let (below, is_rooted) =
            rel-append (boundary_of access) absolute relative rooted.1 is_rel stays in
          subst (Confined access) (some_inj made r (rw stays at h))
            (record { boundary = refl; below = below; rooted = is_rooted; no_up = no_up })
    ]

-- With an access that was set up, every path that is resolved is absolute, is its boundary's path
-- and then the path relative to it, and has no part that leads up.
pub resolve-Confined :
    (marked : CleanPath → Bool) (raw_root scope raw_path : String) (access : FilesystemAccess)
    (r : ResolvedPath)
    → new_filesystem_access marked raw_root scope ≡ some access
    → resolve access raw_path ≡ some r
    → Confined access r
unfolding resolve
resolve-Confined marked raw_root scope raw_path access r h h' =
    let native : String = or_dot (trim_space raw_path) in
    let absolute : CleanPath = absolute_path access native in
    let rooted = new_filesystem_access-IsRooted marked raw_root scope access h in
    resolve_relative-Confined access native absolute (rel (boundary_of access) absolute) r rooted
      (absolute_path-NotUp access native rooted) refl h'

rel-below :
    (base target : CleanPath) (rest : List String)
    → base.absolute ≡ true
    → target.absolute ≡ true
    → target.parts ≡ base.parts ++ rest
    → rel base target ≡ some (record { absolute = false; parts = rest })
rel-below base target rest rooted rooted' below =
    rw (rooted, rooted', below, append-uncommon base.parts rest) refl

stays_down : (base rest : List String) → All NotUp (base ++ rest) → starts_up rest ≡ false
stays_down [] [] h = refl
stays_down [] (part ∷ rest) (first, h) = first
stays_down (b ∷ base) rest (first, h) = stays_down base rest h

resolved_down :
    (access : FilesystemAccess) (native : String) (absolute : CleanPath) (rest : List String)
    → starts_up rest ≡ false
    → resolve_relative access native absolute (some (record { absolute = false; parts = rest }))
      ≡ some (record {
        root_path = boundary_of access;
        root_relative = record { absolute = false; parts = rest };
        display = shown_path access native absolute;
        absolute = absolute;
      })
resolved_down access native absolute rest down = rw down refl

-- With an access that was set up, every path below the boundary is resolved.
pub resolve-below :
    (marked : CleanPath → Bool) (raw_root scope raw_path : String) (access : FilesystemAccess)
    (rest : List String)
    → new_filesystem_access marked raw_root scope ≡ some access
    → (absolute_path access (or_dot (trim_space raw_path))).parts
      ≡ (boundary_of access).parts ++ rest
    → (r : ResolvedPath) × (resolve access raw_path ≡ some r) × (r.root_relative.parts ≡ rest)
unfolding resolve
resolve-below marked raw_root scope raw_path access rest h below =
    let native : String = or_dot (trim_space raw_path) in
    let absolute : CleanPath = absolute_path access native in
    let rooted = new_filesystem_access-IsRooted marked raw_root scope access h in
    let down : starts_up rest ≡ false =
      stays_down (boundary_of access).parts rest
        (subst (All NotUp) below (absolute_path-NotUp access native rooted)) in
    let relative : CleanPath = record { absolute = false; parts = rest } in
    let found : rel (boundary_of access) absolute ≡ some relative =
      rel-below (boundary_of access) absolute rest rooted.1
        (absolute_path-rooted access native rooted) below in
    (
      record {
        root_path = boundary_of access;
        root_relative = relative;
        display = shown_path access native absolute;
        absolute = absolute;
      },
      ap (resolve_relative access native absolute) found
          ∙ resolved_down access native absolute rest down,
      refl,
    )
