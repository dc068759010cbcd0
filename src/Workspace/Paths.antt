-- ===== src/Workspace/Paths.antt =====
-- What the code uses of Go's `path/filepath` on Unix. A cleaned path is kept as its parts.
use Prim.Native.Char.{code}
use materialmind.Common.{
  String, Bool, true, false, ◌||◌, Option, none, some, List, [], ◌∷◌, ◌++◌, if◌then◌else◌, ◌==◌,
  str_eq, map,
}

-- `/a/b` has the parts `a` and `b` and is absolute; `.` has none.
pub record CleanPath : Type 0 where
  pub absolute : Bool
  pub parts : List String

-- `filepath.IsAbs`
abbrev pub is_abs : String → Bool
is_abs String.[] = false
is_abs (String.◌∷◌ c text) = code c == 0x2f

-- What stands before the first slash, and between the others.
unfoldable pub first_part : String → String
first_part String.[] = ""
first_part (String.◌∷◌ c text) = if code c == 0x2f then "" else String.◌∷◌ c (first_part text)

unfoldable pub later_parts : String → List String
later_parts String.[] = []
later_parts (String.◌∷◌ c text) =
    let rest = later_parts text in if code c == 0x2f then first_part text ∷ rest else rest

abbrev pub split_slash : String → List String
split_slash text = first_part text ∷ later_parts text

-- `filepath.Clean`: the parts so far, the last one first.
abbrev pub pop_part : Bool → List String → List String
pop_part true [] = []
pop_part false [] = ".." ∷ []
pop_part absolute (top ∷ stack) = if str_eq top ".." then ".." ∷ top ∷ stack else stack

abbrev pub push_part : Bool → List String → String → List String
push_part absolute stack part =
    if str_eq part "" || str_eq part "."
    then stack
    else if str_eq part ".."
    then pop_part absolute stack
    else part ∷ stack

unfoldable pub push_parts : Bool → List String → List String → List String
push_parts absolute stack [] = stack
push_parts absolute stack (part ∷ parts) = push_parts absolute (push_part absolute stack part) parts

abbrev pub reverse_onto : List String → List String → List String
reverse_onto done [] = done
reverse_onto done (part ∷ stack) = reverse_onto (part ∷ done) stack

abbrev pub clean_parts : Bool → List String → CleanPath
clean_parts absolute parts = record {
  absolute = absolute;
  parts = reverse_onto [] (push_parts absolute [] parts);
}

abbrev pub clean : String → CleanPath
clean text = clean_parts (is_abs text) (split_slash text)

-- `filepath.Join` of a clean path and one that is not empty
abbrev pub join : CleanPath → String → CleanPath
join root text = clean_parts root.absolute (root.parts ++ split_slash text)

-- `filepath.Rel`: what is left of both paths behind their common parts.
abbrev pub uncommon : List String → List String → List String × List String
uncommon [] target = ([], target)
uncommon (b ∷ base) [] = (b ∷ base, [])
uncommon (b ∷ base) (t ∷ target) =
    let rest = uncommon base target in if str_eq b t then rest else (b ∷ base, t ∷ target)

abbrev pub starts_up : List String → Bool
starts_up [] = false
starts_up (part ∷ parts) = str_eq part ".."

abbrev pub up_to : List String × List String → Option CleanPath
up_to (base, target) =
    if starts_up base
    then none
    else some (record { absolute = false; parts = map (λ part. "..") base ++ target })

abbrev pub rel : CleanPath → CleanPath → Option CleanPath
rel base target =
    if base.absolute
    then (if target.absolute then up_to (uncommon base.parts target.parts) else none)
    else (if target.absolute then none else up_to (uncommon base.parts target.parts))
