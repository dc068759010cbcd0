-- ===== src/Engine/Hub/Safety.antt =====
-- No operation of a hub panics: no send on a closed channel, no second close, no index outside.
use materialmind.Common.{
  ℕ, ◌+◌, ◌<◌, ◌^◌, ◌≡◌, refl, sym, ◌∙◌, inl, inr, Bool, true, false, some, List, [], ◌∷◌, String,
  ◌++◌, arith, length, get_elem?, set, get_elem?-set_self, get_elem?-set_ne, Bool-cases, ltb,
  if◌then◌else◌, Option-cases,
}
use materialmind.Engine.Hub.{
  StreamEvent, Channel, Stream, Hub, find_stream, send_or_drop, deliver, push_event, publish,
  close_all,
}
use materialmind.Engine.Hub.Ring.{IsRing-subscribers}
use materialmind.Engine.Hub.Push.{push_event-Slides, next_event}
use materialmind.Engine.Hub.Invariant.{
  In, Nodup, get_elem?-lt, IsOpen, IsConsistent, update-IsConsistent,
}

module _ {ℓ} {D : Type ℓ} where
  abbrev AllOpen : List (Channel D) → List ℕ → Type ℓ
  AllOpen channels ids = (j : ℕ) → In j ids → IsOpen channels j

  -- A write to one channel leaves the others open.
  pub IsOpen-set :
      (channels : List (Channel D)) (i j : ℕ) (c : Channel D)
      → ¬ (i ≡ j)
      → IsOpen channels j
      → IsOpen (set channels i c) j
  IsOpen-set channels i j c ne (c', there, open_c) =
      (c', get_elem?-set_ne channels i j c ne ∙ there, open_c)

  -- The channels other than `ids` stand as before.
  abbrev Untouched : List ℕ → List (Channel D) → List (Channel D) → Type ℓ
  Untouched ids before after = (j : ℕ) → ¬ In j ids → get_elem? after j ≡ get_elem? before j

  abbrev Delivered : List ℕ → List (Channel D) → List (Channel D) × List ℕ → Type ℓ
  Delivered ids before (after, still) =
      Untouched ids before after × ((j : ℕ) → In j still → In j ids × IsOpen after j) × Nodup still

  send_or_drop-some :
      (e : StreamEvent D) (c : Channel D)
      → c.closed ≡ false
      → (c' : Channel D) × (kept : Bool) × (send_or_drop e c ≡ some (c', kept))
        × (kept ≡ true → c'.closed ≡ false)
  unfolding send_or_drop
  send_or_drop-some e c open_c = elim (Bool-cases (ltb (length c.buffer) c.capacity)) [
    | inl room ↦ (record c { buffer = c.buffer ++ e ∷ [] }, true, ground arith, λ _. open_c)
    | inr full ↦ (record c { closed = true }, false, ground arith, λ h. cc)
  ]

  -- One more subscriber in front of the rest of the loop.
  Delivered-cons :
      (i : ℕ) (ids : List ℕ) (channels : List (Channel D)) (c' : Channel D) (kept : Bool)
      → (r : List (Channel D) × List ℕ) → ¬ In i ids
      → i < length channels
      → (kept ≡ true → c'.closed ≡ false)
      → Delivered ids (set channels i c') r
      → Delivered (i ∷ ids) channels (r.0, if kept then i ∷ r.1 else r.1)
  Delivered-cons i ids channels c' kept (after, left) notin inside op (untouched, still, nodup) =
      let unmoved : Untouched (i ∷ ids) channels after = λ j nj.
        untouched j (λ h. nj (inr h)) ∙ get_elem?-set_ne channels i j c' (λ q. nj (inl (sym q))) in
      let here : get_elem? after i ≡ some c' =
        untouched i notin ∙ get_elem?-set_self channels i c' inside in
      elim kept
          as (λ b.
            (b ≡ true → c'.closed ≡ false)
            → Delivered (i ∷ ids) channels (after, if b then i ∷ left else left)) [
              | true ↦ λ op'. (
                unmoved,
                (λ j. elim [
                  | inl q ↦ (inl q, rw q (c', here, op' refl))
                  | inr h ↦ (inr (still j h).0, (still j h).1)
                ]),
                ((λ h. notin (still i h).0), nodup),
              )
              | false ↦ λ _. (unmoved, (λ j h. (inr (still j h).0, (still j h).1)), nodup)
            ]
        op

  -- The loop of a publish does not panic over distinct, open channels; those it keeps stay open.
  pub deliver-Delivered :
      (e : StreamEvent D) (ids : List ℕ) (channels : List (Channel D))
      → Nodup ids
      → AllOpen channels ids
      → (r : List (Channel D) × List ℕ) × (deliver e ids channels ≡ some r)
        × Delivered ids channels r
  unfolding deliver
  deliver-Delivered e [] channels nd op = ((channels, []), refl, (λ j _. refl, λ j h. absurd h, tt))
  deliver-Delivered e (i ∷ ids) channels (notin, nd) op =
      let (c, there, open_c) = op i (inl refl) in
      let (c', kept, sent, still_open) = send_or_drop-some e c open_c in
      let (r, rest, done) =
        deliver-Delivered e ids (set channels i c') nd
          (λ j h. IsOpen-set channels i j c' (λ q. notin (rw q h)) (op j (inr h))) in
      (
        (r.0, if kept then i ∷ r.1 else r.1),
        rw (there, sent, rest),
        Delivered-cons i ids channels c' kept r notin (get_elem?-lt channels i c there) still_open
            done,
      )

  -- The loop of a completion closes every channel of `ids`, and no other.
  pub close_all-some :
      (ids : List ℕ) (channels : List (Channel D))
      → Nodup ids
      → AllOpen channels ids
      → (after : List (Channel D)) × (close_all ids channels ≡ some after)
        × Untouched ids channels after
  unfolding close_all
  close_all-some [] channels nd op = (channels, refl, λ j _. refl)
  close_all-some (i ∷ ids) channels (notin, nd) op =
      let (c, there, open_c) = op i (inl refl) in
      let c' : Channel D = record c { closed = true } in
      let (after, rest, untouched) =
        close_all-some ids (set channels i c') nd
          (λ j h. IsOpen-set channels i j c' (λ q. notin (rw q h)) (op j (inr h))) in
      (
        after,
        rw (there, open_c) rest,
        λ j nj.
            untouched j (λ h. nj (inr h))
            ∙ get_elem?-set_ne channels i j c' (λ q. nj (inl (sym q))),
      )

  -- A stream that is found stands in the heap.
  pub find_stream-at :
      (h : Hub D) (run_id : String) (p : ℕ) (s : Stream D)
      → find_stream h run_id ≡ some (p, s)
      → get_elem? h.heap p ≡ some s
  unfolding find_stream
  find_stream-at h run_id p s found = ground arith

  -- A publish whose parts return, put together.
  publish-eq :
      (h : Hub D) (run_id kind : String) (payload : D) (p : ℕ) (s s' : Stream D)
      → (e : StreamEvent D) (r : List (Channel D) × List ℕ) → find_stream h run_id ≡ some (p, s)
      → s.done ≡ false
      → push_event h.event_limit s kind payload ≡ some (s', e)
      → deliver e s.subscribers h.channels ≡ some r
      → publish run_id kind payload h
        ≡ some (record h { heap = set h.heap p (record s' { subscribers = r.1 }); channels = r.0 })
  unfolding publish
  publish-eq h run_id kind payload p s s' e r found open_s pushed sent = ground arith

  pub number_up : {n : ℕ} {h : Hub D} → IsConsistent n h → IsConsistent (n + 1) h
  number_up {n} inv = record {
    limit_pos = inv.limit_pos;
    rings = inv.rings;
    numbers = λ p s at. omega (arith, inv.numbers p s at);
    subscribers_open = inv.subscribers_open;
    subscribers_nodup = inv.subscribers_nodup;
    subscribers_apart = inv.subscribers_apart;
  }

  publish_found :
      (n : ℕ) (h : Hub D) (run_id kind : String) (payload : D) (p : ℕ) (s : Stream D)
      → IsConsistent n h
      → find_stream h run_id ≡ some (p, s)
      → s.done ≡ false
      → n + 1 < 2 ^ 63
      → (h' : Hub D) × (publish run_id kind payload h ≡ some h') × IsConsistent (n + 1) h'
  publish_found n h run_id kind payload p s inv found open_s small =
      let at = find_stream-at h run_id p s found in
      let (s', pushed, _, ring, same_subs, _, numbered) =
        push_event-Slides h.event_limit s kind payload (inv.rings p s at) inv.limit_pos
          (omega (arith, inv.numbers p s at)) in
      let (r, sent, (untouched, still, nodup)) =
        deliver-Delivered (next_event s kind payload) s.subscribers h.channels
          (inv.subscribers_nodup p s at) (inv.subscribers_open p s at) in
      (
        record h { heap = set h.heap p (record s' { subscribers = r.1 }); channels = r.0 },
        publish-eq h run_id kind payload p s s' (next_event s kind payload) r found open_s pushed
            sent,
        update-IsConsistent (omega arith) inv p s (record s' { subscribers = r.1 }) at
            (record {
              ring = IsRing-subscribers h.event_limit s' r.1 s'.done ring;
              number = omega (arith, inv.numbers p s at, numbered);
              nodup = nodup;
              from_old = λ j h. inl (still j h).0;
              still_open = λ j h. (still j h).1;
              others_kept = λ j c nj there. untouched j nj ∙ there;
            }),
      )

  -- A publish never panics, and keeps what holds of a hub.
  pub publish-IsConsistent :
      (n : ℕ) (h : Hub D) (run_id kind : String) (payload : D)
      → IsConsistent n h
      → n + 1 < 2 ^ 63
      → (h' : Hub D) × (publish run_id kind payload h ≡ some h') × IsConsistent (n + 1) h'
  unfolding publish
  publish-IsConsistent n h run_id kind payload inv small =
      elim (Option-cases (find_stream h run_id)) [
        | inl missing ↦ (h, ground arith, number_up inv)
        | inr ((p, s), found) ↦ (elim (Bool-cases s.done) [
          | inl done ↦ (h, ground arith, number_up inv)
          | inr open_s ↦ publish_found n h run_id kind payload p s inv found open_s small
        ])
      ]
