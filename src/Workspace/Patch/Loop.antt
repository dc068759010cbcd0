-- ===== src/Workspace/Patch/Loop.antt =====
-- A loop over the entries, seen from one file: the entry of that file passes through the loop's
-- step, and the other entries leave its three names alone.
use mathlib.Core.Path.{subst}
use materialmind.Common.{
  ◌≡◌, ◌∙◌, ◌⊎◌, inl, inr, refl, sym, String, Option, none, List, [], ◌∷◌, lookup, All, arith,
}
use materialmind.Workspace.Disk.{Disk, Node, EditError, Result, ok, err, Action}
use materialmind.Workspace.Files.{Host}
use materialmind.Workspace.Patch.{PatchEntry, Progress, each_found, each}

-- What a disk holds under three names.
pub record View : Type 0 where
  pub target : Option Node
  pub staged : Option Node
  pub backup : Option Node

abbrev pub view : String → String → String → Disk → View
view p t b d = record {
  target = lookup p d.files;
  staged = lookup t d.files;
  backup = lookup b d.files;
}

-- One entry of the list is ours and satisfies `P`; the others satisfy `Other`.
abbrev pub Held :
    (PatchEntry → Type 0) → (PatchEntry → View → Type 0) → List PatchEntry → View → Type 0
Held Other P [] v = ⊥
Held Other P (e ∷ es) v = (P e v × All Other es) ⊎ (Other e × Held Other P es v)

pub Held-map :
    (Other : PatchEntry → Type 0) (P Q : PatchEntry → View → Type 0) (es : List PatchEntry)
    (v : View)
    → ((e : PatchEntry) → P e v → Q e v)
    → Held Other P es v
    → Held Other Q es v
Held-map Other P Q [] v f h = h
Held-map Other P Q (e ∷ es) v f (inl (ours, others)) = inl (f e ours, others)
Held-map Other P Q (e ∷ es) v f (inr (other, rest)) = inr (other, Held-map Other P Q es v f rest)

-- A step on one entry: it turns ours from `P` to `Q`, or fails and leaves it as `R` says, and an
-- entry of another file leaves the view.
pub record Step (look : Disk → View) (Other : PatchEntry → Type 0)
    (P Q R : PatchEntry → View → Type 0) (step : PatchEntry → Action PatchEntry) : Type 0 where
  pub keeps : (e : PatchEntry) (d : Disk) → Other e → look (step e d).0 ≡ look d
  pub other : (e e' : PatchEntry) (d : Disk) → Other e → (step e d).1 ≡ ok e' → Other e'
  pub done :
      (e e' : PatchEntry) (d : Disk)
      → P e (look d)
      → (step e d).1 ≡ ok e'
      → Q e' (look (step e d).0)
  pub failed :
      (e : PatchEntry) (d : Disk) (c : EditError)
      → P e (look d)
      → (step e d).1 ≡ err c
      → R e (look (step e d).0)
  pub before : (e : PatchEntry) (v : View) → P e v → R e v
  pub after : (e : PatchEntry) (v : View) → Q e v → R e v

module _ (look : Disk → View) (Other : PatchEntry → Type 0) (P Q R : PatchEntry → View → Type 0)
    (host : Host) (step : PatchEntry → Action PatchEntry) (s : Step look Other P Q R step) where
  -- A loop over entries of other files.
  abbrev Skips : Disk → Progress → Type 0
  Skips d (d', es, cause) = (look d' ≡ look d) × All Other es

  each_found-Other :
      (e : PatchEntry) (es : List PatchEntry) (d : Disk) (r : Result PatchEntry)
      → ((d' : Disk) → Skips d' (each host step es d'))
      → Other e
      → All Other es
      → (step e d).1 ≡ r
      → Skips d (each_found host (each host step es) es e ((step e d).0) r)
  each_found-Other e es d (ok e') ih h hs is_r =
      let (same, others) = ih ((step e d).0) in
      (same ∙ s.keeps e d h, (s.other e e' d h is_r, others))
  each_found-Other e es d (err c) ih h hs is_r = (s.keeps e d h, (h, hs))

  pub each-Other : (es : List PatchEntry) (d : Disk) → All Other es → Skips d (each host step es d)
  unfolding each
  each-Other [] d h = (refl, tt)
  each-Other (e ∷ es) d (h, hs) =
      each_found-Other e es d ((step e d).1) (λ d'. each-Other es d' hs) h hs refl

  -- What a loop over our entry and others leaves.
  abbrev pub Passes : Progress → Type 0
  Passes (d, es, cause) = ((cause ≡ none) → Held Other Q es (look d)) × Held Other R es (look d)

  each_ours :
      (e : PatchEntry) (es : List PatchEntry) (d : Disk) (r : Result PatchEntry)
      → P e (look d)
      → All Other es
      → (step e d).1 ≡ r
      → Passes (each_found host (each host step es) es e ((step e d).0) r)
  each_ours e es d (ok e') h hs is_r =
      let (same, others) = each-Other es ((step e d).0) hs in
      let ours : Q e' (look (each host step es ((step e d).0)).0) =
        subst (Q e') (sym same) (s.done e e' d h is_r) in
      (
        λ finished. inl (ours, others),
        inl (s.after e' (look (each host step es ((step e d).0)).0) ours, others),
      )
  each_ours e es d (err c) h hs is_r =
      (λ finished. absurd (ground arith), inl (s.failed e d c h is_r, hs))

  each_later :
      (e : PatchEntry) (es : List PatchEntry) (d : Disk) (r : Result PatchEntry)
      → ((d' : Disk) → Held Other P es (look d') → Passes (each host step es d'))
      → Other e
      → Held Other P es (look d)
      → (step e d).1 ≡ r
      → Passes (each_found host (each host step es) es e ((step e d).0) r)
  each_later e es d (ok e') ih h held is_r =
      let (all, some_way) =
        ih ((step e d).0) (subst (Held Other P es) (sym (s.keeps e d h)) held) in
      (λ finished. inr (s.other e e' d h is_r, all finished), inr (s.other e e' d h is_r, some_way))
  each_later e es d (err c) ih h held is_r = (
    λ finished. absurd (ground arith),
    subst (Held Other R (e ∷ es)) (sym (s.keeps e d h))
        (inr (h, Held-map Other P R es (look d) (λ o. s.before o (look d)) held)),
  )

  pub each-Passes :
      (es : List PatchEntry) (d : Disk) → Held Other P es (look d) → Passes (each host step es d)
  unfolding each
  each-Passes [] d h = elim h [ ]
  each-Passes (e ∷ es) d (inl (ours, others)) = each_ours e es d ((step e d).1) ours others refl
  each-Passes (e ∷ es) d (inr (other, held)) =
      each_later e es d ((step e d).1) (λ d' h. each-Passes es d' h) other held refl
