-- ===== src/MessageQueue/Refine.antt =====
-- A valid ring behaves as the bounded queue of its messages, oldest first.
use native.Mathlib.Nat.{mod-eq_of_lt, add-zero}
use native.Mathlib.Decide.{dec_lt}
use node_lua.Common.{
  ℕ, zero, suc, ◌+◌, ◌-◌, ◌%◌, ◌≤◌, ◌<◌, ◌≡◌, ◌≢◌, refl, sym, ap, ap₂, ◌∙◌, List, [], ◌∷◌, ◌++◌,
  length, set, get_or, get_or-set_self, get_or-set_ne, lt→ltb, le→ltb, true, false, none, some, ◌⊎◌,
  inl, inr, arith,
}
use node_lua.Common.Words.{add32, sub32}
use node_lua.MessageQueue.{MessageQueue, expand_queue, store_tail, advance, push, pop, run}
use node_lua.MessageQueue.Fifo
use node_lua.MessageQueue.Fifo.{Op, push_op, pop_op, pushed, popped, limit}
use node_lua.MessageQueue.Inv.{
  IsValid, cap-le, tail_in, advance-mod, expand_queue-IsValid, store_tail-IsValid, pop-IsValid,
}
use node_lua.MessageQueue.Expand.{expand_queue_grows, expand_queue_refuses}
use node_lua.MessageQueue.Slots.{slots, slots-mod, length-slots, offset_ne}

module _ {ℓ} {A : Type ℓ} (blank : A) where
  -- The messages of a mailbox, oldest first.
  abbrev pub contents : MessageQueue A → List A
  contents q = slots blank q.queue q.cap q.head q.size

  -- A write at the slot after the last one appends.
  slots-set :
      (buf : List A) (cap' h n t : ℕ) (m : A)
      → t < length buf
      → n < cap'
      → t ≡ (h + n) % cap'
      → slots blank (set buf t m) cap' h (suc n) ≡ slots blank buf cap' h n ++ (m ∷ [])
  slots-set buf cap' h zero t m lt small e =
      ap (λ x. x ∷ []) (rw (← here) (get_or-set_self buf t m blank lt))
    where
      here : t ≡ h % cap'
      here = e ∙ ap (λ k. k % cap') (add-zero h)
  slots-set buf cap' h (suc n) t m lt small e =
      ap₂ ◌∷◌ (get_or-set_ne buf t (h % cap') m blank apart)
        (slots-set buf cap' (h + 1) n t m lt (omega arith) (e ∙ ap (λ k. k % cap') shift))
    where
      shift : h + suc n ≡ h + 1 + n
      shift = omega arith

      apart : t ≢ h % cap'
      apart p =
          offset_ne cap' h 0 (suc n) (omega arith) small
            (sym e ∙ p ∙ ap (λ k. k % cap') (sym (add-zero h)))

  store_tail-contents :
      {q : MessageQueue A} (m : A)
      → IsValid q
      → q.size < q.cap
      → contents (store_tail q m) ≡ contents q ++ (m ∷ [])
  unfolding store_tail
  store_tail-contents {q} m v h = rw next (
      slots-set q.queue q.cap q.head q.size q.tail m (omega (arith, tail_in v, v.storage)) h
        v.tail_at)
    where
      next : add32 q.size 1 ≡ suc q.size
      next = omega (arith, cap-le v)

  -- What `push` comes to: a store in a valid ring with a free slot that holds the same messages,
  -- or a refusal at the limit.
  push-cases :
      {q : MessageQueue A} (m : A)
      → IsValid q
      → ((q' : MessageQueue A) × IsValid q'
          × (q'.size < q'.cap)
          × (contents q' ≡ contents q)
          × (push blank q m ≡ (true, store_tail q' m)))
        ⊎ ((limit ≤ q.size) × (push blank q m ≡ (false, q)))
  unfolding push
  push-cases {q} m v = elim (dec_lt q.size q.cap) [
    | yes free ↦ inl (q, v, free, refl, rw (lt→ltb q.size q.cap free))
    | no full ↦ elim (dec_lt q.cap limit) [
      | yes room ↦
          let (grown, free, same) = expand_queue_grows blank v room in
          inl (
            (expand_queue blank q).1,
            expand_queue-IsValid blank v,
            free,
            same,
            rw (le→ltb q.cap q.size (omega arith), grown),
          )
      | no over ↦ inr (
        omega arith,
        rw (le→ltb q.cap q.size (omega arith), expand_queue_refuses blank v (omega arith)),
      )
    ]
  ]

  -- `push` keeps a valid mailbox valid, whether it has room, doubles or refuses.
  pub push-IsValid : {q : MessageQueue A} (m : A) → IsValid q → IsValid (push blank q m).1
  push-IsValid {q} m v = elim (push-cases m v) [
    | inl (q', v', free, _, e) ↦ rw e (store_tail-IsValid m v' free)
    | inr (_, e) ↦ rw e v
  ]

  -- On a valid mailbox `push` is the push of the bounded queue: below the limit it answers true and
  -- appends, and at the limit it answers false and changes nothing.
  pub push_refines :
      {q : MessageQueue A} (m : A)
      → IsValid q
      → let (b, q') = push blank q m in (b, contents q') ≡ Fifo.push (contents q) m
  unfolding Fifo.push
  push_refines {q} m v = elim (push-cases m v) [
    | inl (q', v', free, same, e) ↦ rw (
      e,
      store_tail-contents m v' free,
      same,
      lt→ltb (length (contents q)) limit (below q' v' free same),
    )
    | inr (over, e) ↦ rw (
      e,
      le→ltb limit (length (contents q))
          (omega (arith, length-slots blank q.queue q.cap q.head q.size)),
    )
  ]
    where
      below :
          (q' : MessageQueue A)
          → IsValid q'
          → q'.size < q'.cap
          → contents q' ≡ contents q
          → length (contents q) < limit
      below q' v' free same =
          omega
            (arith, cap-le v', ap length same, length-slots blank q'.queue q'.cap q'.head q'.size)

  slots-pop :
      (q : MessageQueue A)
      → 0 < q.size
      → IsValid q
      → contents q
        ≡ get_or q.queue q.head blank
          ∷ slots blank q.queue q.cap (advance q.cap q.head) (q.size - 1)
  slots-pop q pos v =
      ap (slots blank q.queue q.cap q.head) whole
      ∙ ap₂ ◌∷◌ (ap (λ k. get_or q.queue k blank) (mod-eq_of_lt v.head_in)) (
          sym (slots-mod blank q.queue q.cap (q.head + 1) (q.size - 1))
          ∙ ap (λ k. slots blank q.queue q.cap k (q.size - 1))
              (sym (advance-mod q.cap q.head v.head_in (cap-le v))))
    where
      whole : q.size ≡ suc (q.size - 1)
      whole = omega arith

  -- On a valid mailbox `pop` is the pop of the bounded queue: it takes the oldest message, or answers
  -- that there is none.
  pub pop_refines :
      {q : MessageQueue A}
      → IsValid q
      → let (m, q') = pop blank q in (m, contents q') ≡ Fifo.pop (contents q)
  unfolding pop Fifo.pop
  pop_refines {q} v = elim (dec_lt 0 q.size) [
    | yes pos ↦
        rw (lt→ltb 0 q.size pos, slots-pop q pos v)
          (ap
            (λ n. (
              some (get_or q.queue q.head blank),
              slots blank q.queue q.cap (advance q.cap q.head) n,
            ))
            (less pos))
    | no empty ↦ rw (le→ltb q.size 0 (omega arith)) (none_left q.size (omega arith))
  ]
    where
      less : 0 < q.size → sub32 q.size 1 ≡ q.size - 1
      less pos = omega (arith, cap-le v, v.size_in)

      none_left :
          (n : ℕ)
          → n ≡ 0
          → (none, slots blank q.queue q.cap q.head n)
            ≡ Fifo.pop (slots blank q.queue q.cap q.head n)
      none_left zero e = refl
      none_left (suc n) e = absurd (omega arith)

  -- No sequence of calls tells a valid mailbox from the bounded queue of its messages.
  pub run_refines :
      (ops : List (Op A)) {q : MessageQueue A}
      → IsValid q
      → run blank q ops ≡ Fifo.run (contents q) ops
  unfolding run Fifo.run
  run_refines [] v = refl
  run_refines (push_op m ∷ ops) v = rw (run_refines ops (push-IsValid m v), ← push_refines m v)
  run_refines (pop_op ∷ ops) v = rw (run_refines ops (pop-IsValid blank v), ← pop_refines v)
