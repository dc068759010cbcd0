-- ===== src/Workspace/Disk.antt =====
-- The files under an `os.Root`, and what the tools do with them. `faults` says which of the next
-- operations fail: those change nothing. Nothing else writes to the files in between.
pub mod Laws
pub mod Outcomes
use materialmind.Common.{
  ℕ, String, Bool, true, false, Option, none, some, List, [], ◌∷◌, if◌then◌else◌, lookup, insert,
  delete,
}

-- `other` is a directory or a special file.
pub data Node : Type 0 where
  regular : List ℕ → ℕ → Node
  symlink other : Node

pub record Disk : Type 0 where
  pub files : List (String × Node)
  pub faults : List Bool

pub data EditError : Type 0 where
  io_error missing target_exists unreadable conflict : EditError

pub data Result {ℓ} (A : Type ℓ) : Type ℓ where
  ok : A → Result A
  err : EditError → Result A

-- A step that uses the files and may fail; what it did stays done.
abbrev pub Action : Type 0 → Type 0
Action A = Disk → Disk × Result A

-- What comes after a step that left this result.
abbrev pub proceed : {A B : Type 0} → (A → Action B) → Disk → Result A → Disk × Result B
proceed f d (ok a) = f a d
proceed f d (err e) = (d, err e)

infixl 5 ◌>>=◌ ◌>>◌
abbrev pub ◌>>=◌ : {A B : Type 0} → Action A → (A → Action B) → Action B
◌>>=◌ m f d = proceed f (m d).0 (m d).1

abbrev pub ◌>>◌ : {A B : Type 0} → Action A → Action B → Action B
m >> k = m >>= λ _. k

abbrev pub pure : {A : Type 0} → A → Action A
pure a d = (d, ok a)

abbrev pub raise : {A : Type 0} → EditError → Action A
raise e d = (d, err e)

-- Whether the next operation fails.
abbrev pub next_fault : List Bool → Bool
next_fault [] = false
next_fault (bad ∷ rest) = bad

abbrev pub later_faults : List Bool → List Bool
later_faults [] = []
later_faults (bad ∷ rest) = rest

abbrev pub attempt : Action (Unit {0})
attempt d = (
  record d { faults = later_faults d.faults },
  if next_fault d.faults then err EditError.io_error else ok tt,
)

abbrev pub put : String → Node → Action (Unit {0})
put path node d = (record d { files = insert path node d.files }, ok tt)

abbrev pub drop_entry : String → Action (Unit {0})
drop_entry path d = (record d { files = delete path d.files }, ok tt)

abbrev pub find : String → Action (Option Node)
find path d = (d, ok (lookup path d.files))

-- `Root.Remove`, not of a directory.
abbrev pub remove_found : String → Option Node → Action (Unit {0})
remove_found path none = raise EditError.missing
remove_found path (some node) = drop_entry path

unfoldable pub remove : String → Action (Unit {0})
remove path = do attempt; node ← find path; remove_found path node

-- `Root.Rename`: the target is replaced, unless it is a directory.
abbrev pub rename_found : String → String → Option Node → Option Node → Action (Unit {0})
rename_found from to none target = raise EditError.missing
rename_found from to (some node) (some Node.other) = raise EditError.io_error
rename_found from to (some node) (some Node.symlink) = do drop_entry from; put to node
rename_found from to (some node) (some (Node.regular content mode)) = do
  drop_entry from
  put to node
rename_found from to (some node) none = do drop_entry from; put to node

unfoldable pub rename : String → String → Action (Unit {0})
rename from to = do attempt; node ← find from; target ← find to; rename_found from to node target

-- `Root.Link`, to a name that is free.
abbrev pub link_found : String → Option Node → Option Node → Action (Unit {0})
link_found to none target = raise EditError.missing
link_found to (some node) (some target) = raise EditError.target_exists
link_found to (some node) none = put to node

unfoldable pub link : String → String → Action (Unit {0})
link from to = do attempt; node ← find from; target ← find to; link_found to node target

-- `Root.OpenFile` with `O_CREATE|O_EXCL`, then the write.
abbrev pub create_found : String → ℕ → Option Node → Action (Unit {0})
create_found path mode (some node) = raise EditError.target_exists
create_found path mode none = put path (Node.regular [] mode)

unfoldable pub create_new : String → ℕ → Action (Unit {0})
create_new path mode = do attempt; node ← find path; create_found path mode node

unfoldable pub write : String → List ℕ → ℕ → Action (Unit {0})
write path content mode = do attempt; put path (Node.regular content mode)
