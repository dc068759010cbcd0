-- ===== src/Engine/Compaction/Contents/Laws.antt =====
-- A safe cut separates no call from its response, and the summary is one content or a part of one.
use materialmind.Common.{
  ℕ, zero, suc, ◌-◌, ◌≤◌, ◌<◌, ◌≡◌, ◌≢◌, refl, ap, ◌∙◌, String, Bool, true, false, ◌&&◌, not,
  Option, none, some, List, [], ◌∷◌, ◌++◌, ◌⊎◌, inl, inr, arith, str_eq, length, get_elem?, take,
  drop, any, Bool-cases, get_elem?-take, get_elem?-drop, eq_iff,
}
use materialmind.Engine.Compaction.Contents.{
  Part, Content, Contents, content_parts, content_has_function_response, part_calls, prefix_calls,
  responds_to, crosses, safe_boundary, contents_with_context_summary, summary_content,
}

-- Some element of the list is this one.
abbrev pub Has {ℓ} : {A : Type ℓ} → A → List A → Type ℓ
Has {A} x xs = (i : ℕ) × (get_elem? xs i ≡ some x)

any-Has :
    {A : Type 0} (p : A → Bool) (x : A) (xs : List A) → any p xs ≡ false → Has x xs → p x ≡ false
any-Has p x [] h (i, e) = cc
any-Has p x (y ∷ xs) h (zero, e) = ground arith
any-Has p x (y ∷ xs) h (suc i, e) = any-Has p x xs (ground arith) (i, e)

any-true :
    {A : Type 0} (p : A → Bool) (x : A) (xs : List A) → Has x xs → p x ≡ true → any p xs ≡ true
any-true p x xs has h = elim (Bool-cases (any p xs)) [
  | inl q ↦ q
  | inr q ↦ let no : p x ≡ false = any-Has p x xs q has in cc
]

any_append-left :
    {A : Type 0} (p : A → Bool) (xs ys : List A) → any p xs ≡ true → any p (xs ++ ys) ≡ true
any_append-left p [] ys h = cc
any_append-left p (x ∷ xs) ys h = elim (Bool-cases (p x)) [
  | inl q ↦ rw q refl
  | inr q ↦ rw q (any_append-left p xs ys (ground arith))
]

any_append-right :
    {A : Type 0} (p : A → Bool) (xs ys : List A) → any p ys ≡ true → any p (xs ++ ys) ≡ true
any_append-right p [] ys h = h
any_append-right p (x ∷ xs) ys h = elim (Bool-cases (p x)) [
  | inl q ↦ rw q refl
  | inr q ↦ rw q (any_append-right p xs ys h)
]

get_elem?-lt : {A : Type 0} (xs : List A) (i : ℕ) (x : A) → get_elem? xs i ≡ some x → i < length xs
get_elem?-lt [] i x e = cc
get_elem?-lt (y ∷ xs) zero x e = omega arith
get_elem?-lt (y ∷ xs) (suc i) x e = omega (arith, get_elem?-lt xs i x e)

str_eq_self : (id : String) → str_eq id id ≡ true
str_eq_self id = (eq_iff id id).1 refl

str_eq-false : (id other : String) → id ≢ other → str_eq id other ≡ false
str_eq-false id other differ = elim (Bool-cases (str_eq id other)) [
  | inl q ↦ absurd (differ ((eq_iff id other).0 q))
  | inr q ↦ q
]

part_calls-step :
    (q : Part) (ps : List Part) (id : String)
    → q.function_call ≡ some id
    → id ≢ ""
    → part_calls (q ∷ ps) ≡ id ∷ part_calls ps
part_calls-step q ps id call nonempty =
    let no : str_eq id "" ≡ false = str_eq-false id "" nonempty in rw (call, no) refl

part_calls-later :
    (q : Part) (ps : List Part) (id : String)
    → any (str_eq id) (part_calls ps) ≡ true
    → any (str_eq id) (part_calls (q ∷ ps)) ≡ true
part_calls-later q ps id h = ground (arith, h)

part_calls-any :
    (q : Part) (ps : List Part) (id : String)
    → Has q ps
    → q.function_call ≡ some id
    → id ≢ ""
    → any (str_eq id) (part_calls ps) ≡ true
part_calls-any q [] id (i, e) call nonempty = cc
part_calls-any q (p ∷ ps) id (zero, e) call nonempty =
    let same : p ≡ q = ground arith in
    rw (same, part_calls-step q ps id call nonempty, str_eq_self id) refl
part_calls-any q (p ∷ ps) id (suc i, e) call nonempty =
    part_calls-later p ps id (part_calls-any q ps id (i, e) call nonempty)

-- A call of one of the contents is one of the calls.
prefix_calls-any :
    (contents : Contents) (content : Option Content) (q : Part) (id : String)
    → Has content contents
    → Has q (content_parts content)
    → q.function_call ≡ some id
    → id ≢ ""
    → any (str_eq id) (prefix_calls contents) ≡ true
prefix_calls-any [] content q id (i, e) has call nonempty = cc
prefix_calls-any (c ∷ cs) content q id (zero, e) has call nonempty =
    let same : c ≡ content = ground arith in
    any_append-left (str_eq id) (part_calls (content_parts c)) (prefix_calls cs)
      (rw same (part_calls-any q (content_parts content) id has call nonempty))
prefix_calls-any (c ∷ cs) content q id (suc i, e) has call nonempty =
    any_append-right (str_eq id) (part_calls (content_parts c)) (prefix_calls cs)
      (prefix_calls-any cs content q id (i, e) has call nonempty)

responds_to-true :
    (calls : List String) (q : Part) (id : String)
    → q.function_response ≡ some id
    → any (str_eq id) calls ≡ true
    → responds_to calls q ≡ true
responds_to-true calls q id response h = rw response h

-- Contents that do not cross hold no response to the calls.
crosses-none :
    (calls : List String) (contents : Contents) (content : Option Content) (q : Part) (id : String)
    → crosses calls contents ≡ false
    → Has content contents
    → Has q (content_parts content)
    → q.function_response ≡ some id
    → any (str_eq id) calls ≡ false
crosses-none calls [] content q id h (i, e) has response = cc
crosses-none calls (c ∷ cs) content q id h (zero, e) has response =
    let same : c ≡ content = ground arith in
    let quiet : any (responds_to calls) (content_parts c) ≡ false = ground arith in
    elim (Bool-cases (any (str_eq id) calls)) [
      | inl known ↦
          let speaks : any (responds_to calls) (content_parts c) ≡ true = rw same (
            any-true (responds_to calls) q (content_parts content) has
              (responds_to-true calls q id response known)) in
          cc
      | inr new ↦ new
    ]
crosses-none calls (c ∷ cs) content q id h (suc i, e) has response =
    crosses-none calls cs content q id (ground arith) (i, e) has response

safe_boundary-crosses :
    (contents : Contents) (cut : ℕ)
    → safe_boundary contents cut ≡ true
    → 0 < cut
    → cut < length contents
    → crosses (prefix_calls (take cut contents)) (drop cut contents) ≡ false
unfolding safe_boundary
safe_boundary-crosses contents cut safe pos inside = ground arith

-- A safe cut separates no tool call that has an ID from its response: whatever is called before it
-- gets no response behind it.
pub safe_boundary-separates :
    (contents : Contents) (cut i j : ℕ) (before after : Option Content) (p q : Part) (id : String)
    → safe_boundary contents cut ≡ true
    → i < cut
    → cut ≤ j
    → get_elem? contents i ≡ some before
    → get_elem? contents j ≡ some after
    → Has p (content_parts before)
    → Has q (content_parts after)
    → p.function_call ≡ some id
    → id ≢ ""
    → q.function_response ≢ some id
safe_boundary-separates contents cut i j before after p q id safe below above at_i at_j has_p has_q
      call nonempty response =
    let inside : j < length contents = get_elem?-lt contents j after at_j in
    let called : any (str_eq id) (prefix_calls (take cut contents)) ≡ true =
      prefix_calls-any (take cut contents) before p id
        (i, get_elem?-take cut contents i below ∙ at_i) has_p call nonempty in
    let behind : get_elem? (drop cut contents) (j - cut) ≡ some after =
      get_elem?-drop cut contents (j - cut) ∙ ap (get_elem? contents) (omega arith) ∙ at_j in
    let silent : any (str_eq id) (prefix_calls (take cut contents)) ≡ false =
      crosses-none (prefix_calls (take cut contents)) (drop cut contents) after q id
        (safe_boundary-crosses contents cut safe (omega arith) (omega arith)) (j - cut, behind)
        has_q response in
    cc

-- The summary takes a content of its own, or becomes the first part of the first content.
pub contents_with_context_summary_cases :
    (summary : String) (suffix : Contents)
    → (contents_with_context_summary summary suffix ≡ summary_content summary ∷ suffix)
      ⊎ (length (contents_with_context_summary summary suffix) ≡ length suffix)
        × (0 < length suffix)
unfolding contents_with_context_summary
contents_with_context_summary_cases summary [] = inl refl
contents_with_context_summary_cases summary (none ∷ suffix) = inl refl
contents_with_context_summary_cases summary (some first ∷ suffix) =
    elim (Bool-cases
      (not (str_eq first.role "model") && not (content_has_function_response (some first)))) [
        | inl merged ↦ inr (rw merged refl, omega arith)
        | inr apart ↦ inl (rw apart refl)
      ]

-- A cut behind the last content is safe.
pub safe_boundary_end :
    (contents : Contents) (cut : ℕ) → length contents ≤ cut → safe_boundary contents cut ≡ true
unfolding safe_boundary
safe_boundary_end contents cut h = ground arith
