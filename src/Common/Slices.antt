-- ===== src/Common/Slices.antt =====
-- Positions in slices and joined lists.
use Prim.Native.Nat.{ℕ, zero, suc, ◌+◌, ◌-◌, ◌%◌, ◌≤◌, ◌<◌}
use mathlib.Core.Path.{◌≡◌, refl, ap, ◌∙◌}
use mathlib.Core.Logic.{◌⊎◌}
use mathlib.Core.Option.{some}
use mathlib.Core.List.{List, [], ◌∷◌, ◌++◌}
use native.Mathlib.Omega.{arith}
use native.Mathlib.Nat.{mod-eq_of_lt, mod-eq-sub-mod}
use native.Mathlib.Decide.{dec_lt}
use materialmind.Common.Lists.{
  length, get_elem?, set, take, drop, length-drop, get_elem?-append_left,
}

module _ {ℓ} {A : Type ℓ} where
  pub get_elem?-append_right :
      (xs ys : List A) (i : ℕ)
      → length xs ≤ i
      → get_elem? (xs ++ ys) i ≡ get_elem? ys (i - length xs)
  get_elem?-append_right [] ys i h = ground arith
  get_elem?-append_right (x ∷ xs) ys zero h = elim h [ ]
  get_elem?-append_right (x ∷ xs) ys (suc i) h =
      ground (arith, get_elem?-append_right xs ys i (omega arith))

  pub get_elem?-drop :
      (n : ℕ) (xs : List A) (i : ℕ) → get_elem? (drop n xs) i ≡ get_elem? xs (n + i)
  get_elem?-drop zero xs i = ground arith
  get_elem?-drop (suc n) [] i = refl
  get_elem?-drop (suc n) (x ∷ xs) i = ground (arith, get_elem?-drop n xs i)

  pub get_elem?-take :
      (n : ℕ) (xs : List A) (i : ℕ) → i < n → get_elem? (take n xs) i ≡ get_elem? xs i
  get_elem?-take zero xs i h = elim h [ ]
  get_elem?-take (suc n) [] i h = refl
  get_elem?-take (suc n) (x ∷ xs) zero h = refl
  get_elem?-take (suc n) (x ∷ xs) (suc i) h = get_elem?-take n xs i (omega arith)

  pub drop-eq-cons :
      (n : ℕ) (xs : List A) (x : A) → get_elem? xs n ≡ some x → drop n xs ≡ x ∷ drop (suc n) xs
  drop-eq-cons n [] x h = ground arith
  drop-eq-cons zero (y ∷ xs) x h = ground arith
  drop-eq-cons (suc n) (y ∷ xs) x h = drop-eq-cons n xs x h

  pub drop-set : (i : ℕ) (xs : List A) (v : A) → drop (suc i) (set xs i v) ≡ drop (suc i) xs
  drop-set i [] v = refl
  drop-set zero (x ∷ xs) v = refl
  drop-set (suc i) (x ∷ xs) v = drop-set i xs v

  pub take-set :
      (i : ℕ) (xs : List A) (v : A)
      → i < length xs
      → take (suc i) (set xs i v) ≡ take i xs ++ v ∷ []
  take-set i [] v h = elim h [ ]
  take-set zero (x ∷ xs) v h = refl
  take-set (suc i) (x ∷ xs) v h = ap (λ l. x ∷ l) (take-set i xs v (omega arith))

  pub drop_all : (n : ℕ) (xs : List A) → length xs ≤ n → drop n xs ≡ []
  drop_all zero [] h = refl
  drop_all zero (x ∷ xs) h = elim h [ ]
  drop_all (suc n) [] h = refl
  drop_all (suc n) (x ∷ xs) h = drop_all n xs (omega arith)

  pub take_all : (n : ℕ) (xs : List A) → length xs ≤ n → take n xs ≡ xs
  take_all zero [] h = refl
  take_all zero (x ∷ xs) h = elim h [ ]
  take_all (suc n) [] h = refl
  take_all (suc n) (x ∷ xs) h = ap (λ l. x ∷ l) (take_all n xs (omega arith))

  -- Reading a list from a start position on, around its end, reads its rotation.
  pub get_elem?-rotate :
      (xs : List A) (start i : ℕ)
      → (start ≡ 0) ⊎ (start < length xs)
      → i < length xs
      → get_elem? xs ((start + i) % length xs) ≡ get_elem? (drop start xs ++ take start xs) i
  get_elem?-rotate xs start i below h = elim (dec_lt (start + i) (length xs)) [
    | yes p ↦ rw (
      mod-eq_of_lt p,
      get_elem?-append_left (drop start xs) (take start xs) i (omega (arith, length-drop start xs)),
      get_elem?-drop start xs i,
    )
    | no p ↦
        let around : (start + i) % length xs ≡ start + i - length xs =
          mod-eq-sub-mod {n = start + i} {m = length xs} (omega arith)
          ∙ mod-eq_of_lt (omega arith) in
        rw
          (
            around,
            get_elem?-append_right (drop start xs) (take start xs) i
                (omega (arith, length-drop start xs)),
            length-drop start xs,
            get_elem?-take start xs (i - (length xs - start)) (omega arith),
          )
          (ap (get_elem? xs) (omega arith))
  ]
