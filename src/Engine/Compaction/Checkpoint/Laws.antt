-- ===== src/Engine/Compaction/Checkpoint/Laws.antt =====
-- A checkpoint that was saved is found again, and only plausible ones are.
use materialmind.Common.{
  ℕ, suc, zero, ◌≤◌, ◌≡◌, ◌≢◌, refl, sym, ap, ◌∙◌, String, true, false, Option, none, some, inl,
  inr, List, [], ◌∷◌, ◌++◌, arith, str_eq, length, take, Bool-cases, Option-cases, length-append,
  eq_iff,
}
use materialmind.Engine.Compaction.Contents.{Contents}
use materialmind.Engine.Compaction.Checkpoint.{
  Checkpoint, Environment, Got, Stored, Loaded, state_key, check_digest, is_plausible,
  content_digest, load_decoded, load_got, load_checkpoint, save_checkpoint,
}

take-append : {A : Type 0} (n : ℕ) (xs ys : List A) → n ≤ length xs → take n (xs ++ ys) ≡ take n xs
take-append zero xs ys h = refl
take-append (suc n) [] ys h = elim h [ ]
take-append (suc n) (x ∷ xs) ys h = ap (λ l. x ∷ l) (take-append n xs ys (omega arith))

check_digest-found :
    (checkpoint found : Checkpoint) (digest : Option String)
    → check_digest checkpoint digest ≡ Loaded.found found
    → checkpoint ≡ found
check_digest-found checkpoint found none e = absurd (ground arith)
check_digest-found checkpoint found (some digest) e = ground arith

module _ {S : Type 0} (env : Environment S) where
  save_checkpoint-encoded :
      (state later : S) (checkpoint : Checkpoint)
      → save_checkpoint env state checkpoint ≡ Stored.stored later
      → (encoded : String) × (env.encode_checkpoint checkpoint ≡ some encoded)
        × (env.set state state_key encoded ≡ Stored.stored later)
  unfolding save_checkpoint
  save_checkpoint-encoded state later checkpoint saved =
      elim (Option-cases (env.encode_checkpoint checkpoint)) [
        | inl e ↦ absurd (ground arith)
        | inr (encoded, e) ↦ (encoded, e, ground arith)
      ]

  load_decoded-found :
      (contents : Contents) (checkpoint : Checkpoint)
      → is_plausible checkpoint (length contents) ≡ true
      → content_digest env (take checkpoint.prefix_content_count contents)
        ≡ some checkpoint.prefix_digest
      → load_decoded env contents (some checkpoint) ≡ Loaded.found checkpoint
  load_decoded-found contents checkpoint plausible digest =
      let same : str_eq checkpoint.prefix_digest checkpoint.prefix_digest ≡ true =
        (eq_iff checkpoint.prefix_digest checkpoint.prefix_digest).1 refl in
      rw plausible (ap (check_digest checkpoint) digest ∙ rw same refl)

  load_checkpoint-text :
      (state : S) (contents : Contents) (encoded : String) (checkpoint : Checkpoint)
      → env.get state state_key ≡ Got.text encoded
      → env.decode_checkpoint encoded ≡ some checkpoint
      → load_checkpoint env state contents ≡ load_decoded env contents (some checkpoint)
  unfolding load_checkpoint
  load_checkpoint-text state contents encoded checkpoint got decoded =
      ap (load_got env contents) got ∙ ap (load_decoded env contents) decoded

  -- When the state gives back what was written and a checkpoint survives its encoding: a saved
  -- checkpoint with the digest of its prefix and a summary that is not blank is found by every
  -- later load whose contents continue those it was saved for.
  pub load-save_checkpoint :
      ((s t : S) (k v : String) → env.set s k v ≡ Stored.stored t → env.get t k ≡ Got.text v)
      → ((c : Checkpoint) (v : String)
          → env.encode_checkpoint c ≡ some v
          → env.decode_checkpoint v ≡ some c)
      → (state later : S) → (contents more : Contents) → (checkpoint : Checkpoint)
      → is_plausible checkpoint (length contents) ≡ true
      → content_digest env (take checkpoint.prefix_content_count contents)
        ≡ some checkpoint.prefix_digest
      → save_checkpoint env state checkpoint ≡ Stored.stored later
      → load_checkpoint env later (contents ++ more) ≡ Loaded.found checkpoint
  load-save_checkpoint get_set decode_encode state later contents more checkpoint plausible digest
        saved =
      let (encoded, is_encoded, set) = save_checkpoint-encoded state later checkpoint saved in
      let inside : checkpoint.prefix_content_count ≤ length contents = ground arith in
      load_checkpoint-text later (contents ++ more) encoded checkpoint
        (get_set state later state_key encoded set) (decode_encode checkpoint encoded is_encoded)
      ∙ load_decoded-found (contents ++ more) checkpoint
          (ground (arith, length-append contents more))
          (ap (content_digest env)
              (take-append checkpoint.prefix_content_count contents more inside)
            ∙ digest)

  load_decoded-passed :
      (contents : Contents) (c checkpoint : Checkpoint)
      → is_plausible c (length contents) ≡ true
      → load_decoded env contents (some c) ≡ Loaded.found checkpoint
      → check_digest c (content_digest env (take c.prefix_content_count contents))
        ≡ Loaded.found checkpoint
  load_decoded-passed contents c checkpoint plausible e = sym (rw plausible refl) ∙ e

  load_decoded-refused :
      (contents : Contents) (c checkpoint : Checkpoint)
      → is_plausible c (length contents) ≡ false
      → load_decoded env contents (some c) ≢ Loaded.found checkpoint
  load_decoded-refused contents c checkpoint refused e =
      let nothing : load_decoded env contents (some c) ≡ Loaded.absent = rw refused refl in cc

  load_decoded-plausible :
      (contents : Contents) (checkpoint : Checkpoint) (decoded : Option Checkpoint)
      → load_decoded env contents decoded ≡ Loaded.found checkpoint
      → is_plausible checkpoint (length contents) ≡ true
  load_decoded-plausible contents checkpoint none e = absurd (ground arith)
  load_decoded-plausible contents checkpoint (some c) e =
      elim (Bool-cases (is_plausible c (length contents))) [
        | inl plausible ↦
            let same : c ≡ checkpoint =
              check_digest-found c checkpoint
                (content_digest env (take c.prefix_content_count contents))
                (load_decoded-passed contents c checkpoint plausible e) in
            ap (λ d. is_plausible d (length contents)) (sym same) ∙ plausible
        | inr refused ↦ absurd (load_decoded-refused contents c checkpoint refused e)
      ]

  load_got-plausible :
      (contents : Contents) (checkpoint : Checkpoint) (got : Got)
      → load_got env contents got ≡ Loaded.found checkpoint
      → is_plausible checkpoint (length contents) ≡ true
  load_got-plausible contents checkpoint Got.missing e = absurd (ground arith)
  load_got-plausible contents checkpoint Got.unreadable e = absurd (ground arith)
  load_got-plausible contents checkpoint Got.other e = absurd (ground arith)
  load_got-plausible contents checkpoint (Got.text encoded) e =
      load_decoded-plausible contents checkpoint (env.decode_checkpoint encoded) e

  -- Only a plausible checkpoint is found.
  pub load_checkpoint-plausible :
      (state : S) (contents : Contents) (checkpoint : Checkpoint)
      → load_checkpoint env state contents ≡ Loaded.found checkpoint
      → is_plausible checkpoint (length contents) ≡ true
  unfolding load_checkpoint
  load_checkpoint-plausible state contents checkpoint e =
      load_got-plausible contents checkpoint (env.get state state_key) e
