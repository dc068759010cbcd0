-- ===== src/Workspace/Access.antt =====
-- Which files a tool may address: `newFilesystemAccess` and `Resolve` of
-- internal/workspacetools/access.go, and `FindRepositoryRoot` of internal/toolpolicy/policy.go,
-- on Unix. `marked` says in which directories the system finds `.git` or `.jj`.
pub mod Laws
use materialmind.Common.{
  String, Bool, true, false, ◌&&◌, ◌||◌, not, Option, none, some, List, [], ◌∷◌, ◌++◌,
  if◌then◌else◌, str_eq, ◌>>=◌,
}
use materialmind.Common.Text.{trim_space}
use materialmind.Workspace.Paths.{CleanPath, is_abs, clean, join, rel, starts_up, reverse_onto}

pub record FilesystemAccess : Type 0 where
  pub workspace_root : CleanPath
  pub boundary_root : Option CleanPath
  pub scope : String

pub record ResolvedPath : Type 0 where
  pub root_path : CleanPath
  pub root_relative : CleanPath
  pub display : CleanPath
  pub absolute : CleanPath

-- The parts of a directory, the last one first; the parent is the rest.
abbrev pub directory : List String → CleanPath
directory stack = record { absolute = true; parts = reverse_onto [] stack }

abbrev pub find_from : (CleanPath → Bool) → List String → Option CleanPath
find_from marked [] = if marked (directory []) then some (directory []) else none
find_from marked (part ∷ stack) =
    let above = find_from marked stack in
    if marked (directory (part ∷ stack)) then some (directory (part ∷ stack)) else above

-- `FindRepositoryRoot` of an absolute path
abbrev pub find_repository_root : (CleanPath → Bool) → CleanPath → Option CleanPath
find_repository_root marked root = find_from marked (reverse_onto [] root.parts)

abbrev pub with_boundary : CleanPath → String → Option CleanPath → Option FilesystemAccess
with_boundary root scope boundary =
    some (record { workspace_root = root; boundary_root = boundary; scope = scope })

-- `newFilesystemAccess`, after the root is cleaned
abbrev pub repository_access : CleanPath → String → Option CleanPath → Option FilesystemAccess
repository_access root scope none = none
repository_access root scope (some found) = with_boundary root scope (some found)

abbrev pub access_of : (CleanPath → Bool) → CleanPath → String → Option FilesystemAccess
access_of marked root scope =
    if str_eq scope "workspace"
    then with_boundary root scope (some root)
    else if str_eq scope "repository"
    then repository_access root scope (find_repository_root marked root)
    else if str_eq scope "computer"
    then with_boundary root scope none
    else none

abbrev pub access_if_absolute : (CleanPath → Bool) → CleanPath → String → Option FilesystemAccess
access_if_absolute marked root scope = if root.absolute then access_of marked root scope else none

unfoldable pub new_filesystem_access :
    (CleanPath → Bool) → String → String → Option FilesystemAccess
new_filesystem_access marked raw_root scope =
    access_if_absolute marked (clean (trim_space raw_root)) scope

abbrev pub or_dot : String → String
or_dot raw = if str_eq raw "" then "." else raw

-- `pathEscapes` of a relative path
abbrev pub path_escapes : CleanPath → Bool
path_escapes relative = starts_up relative.parts || relative.absolute

-- The volume of every path is empty.
abbrev pub volume_root : CleanPath
volume_root = record { absolute = true; parts = [] }

abbrev pub absolute_path : FilesystemAccess → String → CleanPath
absolute_path access native =
    if is_abs native then clean native else join access.workspace_root native

abbrev pub boundary_of : FilesystemAccess → CleanPath
boundary_of access = elim access.boundary_root [ none ↦ volume_root | some root ↦ root ]

abbrev pub or_else : CleanPath → Option CleanPath → CleanPath
or_else path none = path
or_else path (some found) = found

abbrev pub shown_path : FilesystemAccess → String → CleanPath → CleanPath
shown_path access native absolute =
    if is_abs native then absolute else or_else absolute (rel access.workspace_root absolute)

abbrev pub resolve_relative :
    FilesystemAccess → String → CleanPath → Option CleanPath → Option ResolvedPath
resolve_relative access native absolute none = none
resolve_relative access native absolute (some relative) =
    if path_escapes relative
    then none
    else some (record {
      root_path = boundary_of access;
      root_relative = relative;
      display = shown_path access native absolute;
      absolute = absolute;
    })

-- `Resolve`
abbrev pub resolve_native : FilesystemAccess → String → Option ResolvedPath
resolve_native access native =
    let absolute = absolute_path access native in
    resolve_relative access native absolute (rel (boundary_of access) absolute)

unfoldable pub resolve : FilesystemAccess → String → Option ResolvedPath
resolve access raw_path = resolve_native access (or_dot (trim_space raw_path))
