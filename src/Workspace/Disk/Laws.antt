-- ===== src/Workspace/Disk/Laws.antt =====
-- What each operation does to the names that it is given, and that it leaves the others.
use materialmind.Common.{
  ◌≡◌, ◌∙◌, ◌⊎◌, inl, inr, refl, ap, ℕ, String, false, List, lookup, lookup-insert, lookup-delete,
  str_eq, arith,
}
use materialmind.Workspace.Disk.{
  Disk, EditError, Result, Action, remove, rename, link, create_new, write, ok, err, ◌>>=◌, ◌>>◌,
  proceed,
}

-- A step that leaves the file of this name.
abbrev pub Keeps : {A : Type 0} → String → Action A → Type 0
Keeps q m = (d : Disk) → lookup q (m d).0.files ≡ lookup q d.files

pub remove-Keeps : (q path : String) → str_eq path q ≡ false → Keeps q (remove path)
unfolding remove
remove-Keeps q path apart d = ground (arith, lookup-delete path q d.files)

pub rename-Keeps :
    (q from to : String) → str_eq from q ≡ false → str_eq to q ≡ false → Keeps q (rename from to)
unfolding rename
rename-Keeps q from to apart apart' d = grind (arith, lookup-delete, lookup-insert)

pub link-Keeps : (q from to : String) → str_eq to q ≡ false → Keeps q (link from to)
unfolding link
link-Keeps q from to apart d = grind (arith, lookup-insert)

pub create_new-Keeps :
    (q path : String) (mode : ℕ) → str_eq path q ≡ false → Keeps q (create_new path mode)
unfolding create_new
create_new-Keeps q path mode apart d = grind (arith, lookup-insert)

pub write-Keeps :
    (q path : String) (content : List ℕ) (mode : ℕ)
    → str_eq path q ≡ false
    → Keeps q (write path content mode)
unfolding write
write-Keeps q path content mode apart d = grind (arith, lookup-insert)

pub proceed-Keeps :
    {A B : Type 0} (q : String) (f : A → Action B) (d : Disk) (r : Result A)
    → ((a : A) → Keeps q (f a))
    → lookup q (proceed f d r).0.files ≡ lookup q d.files
proceed-Keeps q f d (ok a) k = k a d
proceed-Keeps q f d (err e) k = refl

pub bind-Keeps :
    {A B : Type 0} (q : String) (m : Action A) (f : A → Action B)
    → Keeps q m
    → ((a : A) → Keeps q (f a))
    → Keeps q (m >>= f)
bind-Keeps q m f h k d = proceed-Keeps q f ((m d).0) ((m d).1) k ∙ h d

pub seq-Keeps :
    {A B : Type 0} (q : String) (m : Action A) (k : Action B)
    → Keeps q m
    → Keeps q k
    → Keeps q (m >> k)
seq-Keeps q m k h h' = bind-Keeps q m (λ _. k) h (λ _. h')

-- A step that leaves every file.
abbrev pub Reads : {A : Type 0} → Action A → Type 0
Reads m = (d : Disk) → (m d).0.files ≡ d.files

proceed-Reads :
    {A B : Type 0} (f : A → Action B) (d : Disk) (r : Result A)
    → ((a : A) → Reads (f a))
    → (proceed f d r).0.files ≡ d.files
proceed-Reads f d (ok a) k = k a d
proceed-Reads f d (err e) k = refl

pub bind-Reads :
    {A B : Type 0} (m : Action A) (f : A → Action B)
    → Reads m
    → ((a : A) → Reads (f a))
    → Reads (m >>= f)
bind-Reads m f h k d = proceed-Reads f ((m d).0) ((m d).1) k ∙ h d

pub Reads-Keeps : {A : Type 0} (q : String) (m : Action A) → Reads m → Keeps q m
Reads-Keeps q m h d = ap (lookup q) (h d)

-- A chain that succeeds has succeeded in its first step.
proceed-ok :
    {A B : Type 0} (f : A → Action B) (d : Disk) (r : Result A) (b : B)
    → (proceed f d r).1 ≡ ok b
    → (a : A) × (r ≡ ok a) × (proceed f d r ≡ f a d)
proceed-ok f d (ok a) b h = (a, refl, refl)
proceed-ok f d (err e) b h = absurd (ground arith)

pub bind-ok :
    {A B : Type 0} (m : Action A) (f : A → Action B) (d : Disk) (b : B)
    → ((m >>= f) d).1 ≡ ok b
    → (a : A) × ((m d).1 ≡ ok a) × ((m >>= f) d ≡ f a (m d).0)
bind-ok m f d b h = proceed-ok f ((m d).0) ((m d).1) b h

-- A chain that fails has failed in its first step, or after it.
proceed-err :
    {A B : Type 0} (f : A → Action B) (d : Disk) (r : Result A) (e : EditError)
    → (proceed f d r).1 ≡ err e
    → ((r ≡ err e) × ((proceed f d r).0 ≡ d)) ⊎ ((a : A) × (r ≡ ok a) × (proceed f d r ≡ f a d))
proceed-err f d (ok a) e h = inr (a, refl, refl)
proceed-err f d (err e') e h = inl (ground arith, refl)

pub bind-err :
    {A B : Type 0} (m : Action A) (f : A → Action B) (d : Disk) (e : EditError)
    → ((m >>= f) d).1 ≡ err e
    → (((m d).1 ≡ err e) × (((m >>= f) d).0 ≡ (m d).0))
      ⊎ ((a : A) × ((m d).1 ≡ ok a) × ((m >>= f) d ≡ f a (m d).0))
bind-err m f d e h = proceed-err f ((m d).0) ((m d).1) e h
