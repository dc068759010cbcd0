-- ===== src/Workspace/Disk/Outcomes.antt =====
-- What each operation has done when it succeeds; when it fails it has done nothing.
use materialmind.Common.{
  ◌≡◌, String, false, none, some, List, lookup, lookup-insert, lookup-delete, str_eq, arith, eq_iff,
  ℕ,
}
use materialmind.Workspace.Disk.{Node, Disk, EditError, remove, rename, link, write, ok, err}

pub rename-ok :
    (from to : String) (d : Disk)
    → str_eq to from ≡ false
    → (rename from to d).1 ≡ ok tt
    → (lookup to (rename from to d).0.files ≡ lookup from d.files)
      × (lookup from (rename from to d).0.files ≡ none)
unfolding rename
rename-ok from to d apart h = grind (arith, lookup-delete, lookup-insert, eq_iff)

pub rename-err :
    (from to : String) (d : Disk) (e : EditError)
    → (rename from to d).1 ≡ err e
    → (rename from to d).0.files ≡ d.files
unfolding rename
rename-err from to d e h = ground arith

pub link-ok :
    (from to : String) (d : Disk)
    → (link from to d).1 ≡ ok tt
    → (lookup to d.files ≡ none) × (lookup to (link from to d).0.files ≡ lookup from d.files)
unfolding link
link-ok from to d h = grind (arith, lookup-insert, eq_iff)

pub link-err :
    (from to : String) (d : Disk) (e : EditError)
    → (link from to d).1 ≡ err e
    → (link from to d).0.files ≡ d.files
unfolding link
link-err from to d e h = ground arith

pub remove-ok :
    (path : String) (d : Disk)
    → (remove path d).1 ≡ ok tt
    → lookup path (remove path d).0.files ≡ none
unfolding remove
remove-ok path d h = grind (arith, lookup-delete, eq_iff)

pub remove-missing :
    (path : String) (d : Disk)
    → (remove path d).1 ≡ err EditError.missing
    → lookup path (remove path d).0.files ≡ none
unfolding remove
remove-missing path d h = grind (arith, lookup-delete, eq_iff)

pub write-ok :
    (path : String) (content : List ℕ) (mode : ℕ) (d : Disk)
    → (write path content mode d).1 ≡ ok tt
    → lookup path (write path content mode d).0.files ≡ some (Node.regular content mode)
unfolding write
write-ok path content mode d h = grind (arith, lookup-insert, eq_iff)
