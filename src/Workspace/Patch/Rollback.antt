-- ===== src/Workspace/Patch/Rollback.antt =====
-- A rollback puts the original of a file back, or says that it failed.
use mathlib.Core.Path.{subst}
use materialmind.Common.{
  ◌≡◌, ◌∙◌, ◌⊎◌, inl, inr, refl, sym, String, Bool, true, false, ◌||◌, Option, none, some, List, [],
  ◌∷◌, str_eq, lookup, arith, All,
}
use materialmind.Workspace.Disk.{Disk, Node, EditError, Result, ok, err, remove, rename}
use materialmind.Workspace.Disk.Laws.{remove-Keeps}
use materialmind.Workspace.Disk.Outcomes.{rename-ok, remove-ok, remove-missing}
use materialmind.Workspace.Files.{FilePatch, Host, staging_name, backup_name}
use materialmind.Workspace.Patch.{
  PatchEntry, or_empty, or_missing, remove_if_exists, fails, undo_entry, undo_all,
}
use materialmind.Workspace.Patch.Undo.{Unrelated, undo_entry-Keeps, undo_all-Keeps, IsTarget}
use materialmind.Workspace.Patch.Loop.{View, Held}
use materialmind.Workspace.Patch.Ours.{IsNamed, entry, look, Other, Placed, Recoverable, look_eq}

fails-ok : (r : Result (Unit {0})) (host : Host) → fails host r ≡ false → r ≡ ok tt
fails-ok (ok u) host h = refl
fails-ok (err e) host h = absurd (ground arith)

gone_either :
    (path : String) (d : Disk) (r : Result (Unit {0})) (host : Host)
    → (remove path d).1 ≡ r
    → fails host (or_missing r) ≡ false
    → lookup path (remove path d).0.files ≡ none
gone_either path d (ok u) host is_r h = remove-ok path d is_r
gone_either path d (err EditError.missing) host is_r h = remove-missing path d is_r
gone_either path d (err EditError.io_error) host is_r h = absurd (ground arith)
gone_either path d (err EditError.target_exists) host is_r h = absurd (ground arith)
gone_either path d (err EditError.unreadable) host is_r h = absurd (ground arith)
gone_either path d (err EditError.conflict) host is_r h = absurd (ground arith)

remove_if_exists-gone :
    (path : String) (d : Disk) (host : Host)
    → fails host (remove_if_exists path d).1 ≡ false
    → lookup path (remove_if_exists path d).0.files ≡ none
unfolding remove_if_exists
remove_if_exists-gone path d host h = gone_either path d ((remove path d).1) host refl h

remove_if_exists-keeps :
    (q path : String) (d : Disk)
    → str_eq path q ≡ false
    → lookup q (remove_if_exists path d).0.files ≡ lookup q d.files
unfolding remove_if_exists
remove_if_exists-keeps q path d apart = remove-Keeps q path apart d

or_false : (a b : Bool) → (a || b) ≡ false → (a ≡ false) × (b ≡ false)
or_false a b h = (ground arith, ground arith)

rename_back :
    (host : Host) (path b : String) (backup : Option String) (o : Option Node) (d : Disk)
    → str_eq path b ≡ false
    → backup ≡ some b
    → lookup b d.files ≡ o
    → fails host (rename (or_empty host backup) path d).1 ≡ false
    → lookup path (rename (or_empty host backup) path d).0.files ≡ o
rename_back host path b backup o d apart is_backup kept =
    subst
      (λ (x : Option String).
        fails host (rename (or_empty host x) path d).1 ≡ false
        → lookup path (rename (or_empty host x) path d).0.files ≡ o)
      (sym is_backup)
      (λ h. (rename-ok b path d apart (fails-ok ((rename b path d).1) host h)).0 ∙ kept)

module _ (host : Host) (f : FilePatch) (o : Option Node) (named : IsNamed host f) where
  -- Undoing our entry puts the original back.
  undo_ours :
      (moved installed : Bool) (staged backup : Option String) (d : Disk)
      → Placed host f o named moved installed backup (look host f o named d)
      → (undo_entry host (entry f staged backup moved installed) d).1 ≡ false
      → lookup f.path (undo_entry host (entry f staged backup moved installed) d).0.files ≡ o
  unfolding undo_entry
  undo_ours false false staged backup d (target, empty) h = target
  undo_ours true false staged backup d (target, kept, is_backup) h =
      rename_back host f.path (backup_name host f) backup o d named.path_backup is_backup kept h
  undo_ours false true staged backup d (none_kept, empty) h =
      remove_if_exists-gone f.path d host
        (or_false (fails host (remove_if_exists f.path d).1) false h).0
      ∙ sym none_kept
  undo_ours true true staged backup d (kept, is_backup) h =
      let b : String = backup_name host f in
      let d1 : Disk = (remove_if_exists f.path d).0 in
      rename_back host f.path b backup o d1 named.path_backup is_backup
        (remove_if_exists-keeps b f.path d named.path_backup ∙ kept)
        (or_false (fails host (remove_if_exists f.path d).1)
          (fails host (rename (or_empty host backup) f.path d1).1) h).1

  undo_found :
      (e : PatchEntry) (d : Disk)
      → Recoverable host f o named e (look host f o named d)
      → (undo_entry host e d).1 ≡ false
      → lookup f.path (undo_entry host e d).0.files ≡ o
  undo_found e d (staged, backup, moved, installed, is_e, own, placed) =
      subst
        (λ (x : PatchEntry).
          (undo_entry host x d).1 ≡ false → lookup f.path (undo_entry host x d).0.files ≡ o)
        (sym is_e) (undo_ours moved installed staged backup d placed)

  Other-Unrelated :
      (e : PatchEntry) → Other host f o named e → Unrelated host f.path named.path_named e
  Other-Unrelated e (p, t, b, own) = (p, own)

  All-Apart :
      (es : List PatchEntry)
      → All (Other host f o named) es
      → All (Unrelated host f.path named.path_named) es
        × All (Unrelated host (staging_name host f) named.staging_named) es
        × All (Unrelated host (backup_name host f) named.backup_named) es
  All-Apart [] h = (tt, tt, tt)
  All-Apart (e ∷ es) ((p, t, b, own), h) =
      let (ps, ts, bs) = All-Apart es h in (((p, own), ps), ((t, own), ts), ((b, own), bs))

  undo_others :
      (es : List PatchEntry) (d : Disk)
      → All (Other host f o named) es
      → look host f o named (undo_all host es d).0 ≡ look host f o named d
  undo_others es d h =
      let (ps, ts, bs) = All-Apart es h in
      look_eq host f o named d (undo_all host es d).0
        (undo_all-Keeps host f.path named.path_named es d ps)
        (undo_all-Keeps host (staging_name host f) named.staging_named es d ts)
        (undo_all-Keeps host (backup_name host f) named.backup_named es d bs)

  -- A rollback without an error puts the original back.
  pub undo_all_ours :
      (es : List PatchEntry) (d : Disk)
      → Held (Other host f o named) (Recoverable host f o named) es (look host f o named d)
      → (undo_all host es d).1 ≡ false
      → lookup f.path (undo_all host es d).0.files ≡ o
  unfolding undo_all
  undo_all_ours [] d h fine = absurd h
  undo_all_ours (e ∷ es) d (inl (ours, others)) fine =
      let d1 : Disk = (undo_all host es d).0 in
      undo_found e d1 (subst (Recoverable host f o named e) (sym (undo_others es d others)) ours)
        (or_false (undo_all host es d).1 (undo_entry host e d1).1 fine).1
  undo_all_ours (e ∷ es) d (inr (other, held)) fine =
      let d1 : Disk = (undo_all host es d).0 in
      undo_entry-Keeps host f.path named.path_named e d1 (Other-Unrelated e other)
      ∙ undo_all_ours es d held (or_false (undo_all host es d).1 (undo_entry host e d1).1 fine).0

  backup_own :
      (moved installed : Bool) (backup : Option String) (v : View)
      → Placed host f o named moved installed backup v
      → (backup ≡ none) ⊎ (backup ≡ some (backup_name host f))
  backup_own false false backup v (target, empty) = inl empty
  backup_own true false backup v (target, kept, is_backup) = inr is_backup
  backup_own false true backup v (none_kept, empty) = inl empty
  backup_own true true backup v (kept, is_backup) = inr is_backup

  IsTarget-Other :
      (e : PatchEntry) → Other host f o named e → IsTarget host f.path named.path_named e
  IsTarget-Other e ((path, staging, backup), t, b, own) = (staging, backup, own)

  Other-targets :
      (es : List PatchEntry)
      → All (Other host f o named) es
      → All (IsTarget host f.path named.path_named) es
  Other-targets [] h = tt
  Other-targets (e ∷ es) (other, h) = (IsTarget-Other e other, Other-targets es h)

  -- The temporary names of every entry are none of the targets.
  IsTarget-ours :
      (e : PatchEntry) (v : View)
      → Recoverable host f o named e v
      → IsTarget host f.path named.path_named e
  IsTarget-ours e v (staged, backup, moved, installed, is_e, own, placed) =
      subst (IsTarget host f.path named.path_named) (sym is_e)
        (named.staging_path, named.backup_path, (own, backup_own moved installed backup v placed))

  pub Held-targets :
      (es : List PatchEntry) (v : View)
      → Held (Other host f o named) (Recoverable host f o named) es v
      → All (IsTarget host f.path named.path_named) es
  Held-targets [] v h = absurd h
  Held-targets (e ∷ es) v (inl (ours, others)) = (IsTarget-ours e v ours, Other-targets es others)
  Held-targets (e ∷ es) v (inr (other, held)) = (IsTarget-Other e other, Held-targets es v held)
