-- ===== src/Workspace/Proposal/Snapshots.antt =====
-- What a snapshot says of the files.
use materialmind.Common.{
  ℕ, ◌≤◌, ◌≡◌, ◌∙◌, sym, ap, String, true, ◌||◌, not, Option, none, some, List, lookup, length, ltb,
  arith, Bool-cases, inl, inr,
}
use materialmind.Workspace.Text.{valid_edit_text}
use materialmind.Workspace.Disk.{Node, Disk, ok, Action, ◌>>=◌, attempt, find}
use materialmind.Workspace.Disk.Laws.{bind-ok}
use materialmind.Workspace.Files.{
  Snapshot, Host, no_snapshot, max_edit_file_bytes, read_content, read_found,
  read_optional_edit_snapshot,
}

-- The snapshot is of what stands there: nothing, or a file of text within the limit.
abbrev pub IsOf : Host → Option Node → Snapshot → Type 0
IsOf host none before = before ≡ no_snapshot
IsOf host (some (Node.regular content mode)) before =
    (before
      ≡ record { exists = true; content = content; mode = mode; hash = host.sha256_hex content })
    × (length content ≤ max_edit_file_bytes)
    × (valid_edit_text content ≡ true)
IsOf host (some Node.symlink) before = ⊥
IsOf host (some Node.other) before = ⊥

-- An action after an attempt that succeeds.
attempt-ok :
    {A : Type 0} (next : Action A) (d : Disk) (a : A)
    → ((attempt >>= λ _. next) d).1 ≡ ok a
    → (next ((attempt d).0)).1 ≡ ok a
attempt-ok next d a h =
    let (done, is_ok, same) = bind-ok attempt (λ _. next) d a h in sym (ap (λ r. r.1) same) ∙ h

module _ (host : Host) where
  read_content-IsOf :
      (content : List ℕ) (mode : ℕ) (d : Disk) (before : Snapshot)
      → (read_content host content mode d).1 ≡ ok before
      → IsOf host (some (Node.regular content mode)) before
  read_content-IsOf content mode d before h =
      elim (Bool-cases
        (ltb max_edit_file_bytes (length content) || not (valid_edit_text content))) [
          | inl bad ↦ absurd (ground arith)
          | inr good ↦ (ground arith, ground arith, ground arith)
        ]

  read_found-IsOf :
      (found : Option Node) (d : Disk) (before : Snapshot)
      → (read_found host found d).1 ≡ ok before
      → IsOf host found before
  read_found-IsOf none d before h = ground arith
  read_found-IsOf (some Node.symlink) d before h = absurd (ground arith)
  read_found-IsOf (some Node.other) d before h = absurd (ground arith)
  read_found-IsOf (some (Node.regular content mode)) d before h =
      let read = read_content host content mode in
      read_content-IsOf content mode (attempt (attempt (attempt d).0).0).0 before (
        attempt-ok read (attempt (attempt d).0).0 before (
          attempt-ok (attempt >>= λ _. read) (attempt d).0 before
            (attempt-ok (attempt >>= λ _. attempt >>= λ _. read) d before h)))

  -- A snapshot that is read is of what stands under the path.
  pub read_optional_edit_snapshot-IsOf :
      (path : String) (d : Disk) (before : Snapshot)
      → (read_optional_edit_snapshot host path d).1 ≡ ok before
      → IsOf host (lookup path d.files) before
  unfolding read_optional_edit_snapshot
  read_optional_edit_snapshot-IsOf path d before h =
      read_found-IsOf (lookup path d.files) (attempt d).0 before
        (attempt-ok (find path >>= λ node. read_found host node) d before h)
