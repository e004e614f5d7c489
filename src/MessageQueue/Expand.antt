-- ===== src/MessageQueue/Expand.antt =====
-- `expand_queue` moves the messages into a ring of twice the capacity and keeps their order.
use native.Mathlib.Nat.{mod-eq_of_lt, zero-add}
use native.Mathlib.Decide.{ℕ_discrete}
use node_lua.Common.{
  ℕ, zero, suc, ◌+◌, ◌-◌, ◌%◌, ◌^◌, ◌≤◌, ◌<◌, ◌≡◌, refl, ◌∙◌, List, length, length-set,
  length-replicate, replicate, set, get_or, get_or-set_self, get_or-set_ne, bit_and, lt→ltb, le→ltb,
  true, false, arith,
}
use node_lua.Common.Bits.{bit_and-mask}
use node_lua.Common.Words.{add32, sub32, shl32}
use node_lua.MessageQueue.{MessageQueue, copy_from, expand_queue}
use node_lua.MessageQueue.Inv.{IsValid, cap-le, cap_pos}
use node_lua.MessageQueue.Slots.{slots, slots_ext}

module _ {ℓ} {A : Type ℓ} (blank : A) {q : MessageQueue A} (v : IsValid q) where
  -- The index that the copying loop reads: its mask is a remainder by the capacity.
  masked-mod : (i : ℕ) → i < q.cap → bit_and (add32 q.head i) (sub32 q.cap 1) ≡ (q.head + i) % q.cap
  masked-mod i lt = rw (whole, minus, v.power, bit_and-mask v.log (q.head + i))
    where
      whole : add32 q.head i ≡ q.head + i
      whole = omega (arith, cap-le v, v.head_in)

      minus : sub32 q.cap 1 ≡ q.cap - 1
      minus = omega (arith, cap-le v, cap_pos v)

  -- The loop writes slot `j` exactly when it passes `j`, with the message at offset `j`.
  copied :
      (rounds i : ℕ) (new : List A) (j : ℕ)
      → i + rounds ≤ q.cap
      → i + rounds ≤ length new
      → (j < i → get_or new j blank ≡ get_or q.queue ((q.head + j) % q.cap) blank)
      → j < i + rounds
      → get_or (copy_from blank q rounds i new) j blank
        ≡ get_or q.queue ((q.head + j) % q.cap) blank
  unfolding copy_from
  copied zero i new j fits room done lt = done (omega arith)
  copied (suc rounds) i new j fits room done lt = rw next (
      copied rounds (suc i) (set new i _) j (omega arith)
        (omega (
          arith,
          length-set new i (get_or q.queue (bit_and (add32 q.head i) (sub32 q.cap 1)) blank),
        ))
        written (omega arith))
    where
      next : add32 i 1 ≡ suc i
      next = omega (arith, cap-le v)

      written :
          j < suc i
          → get_or
              (set new i (get_or q.queue (bit_and (add32 q.head i) (sub32 q.cap 1)) blank))
              j
              blank
            ≡ get_or q.queue ((q.head + j) % q.cap) blank
      written lt' = elim (ℕ_discrete i j) [
        | yes e ↦ rw (
          ← e,
          get_or-set_self new i (get_or q.queue (bit_and (add32 q.head i) (sub32 q.cap 1)) blank)
              blank (omega arith),
          masked-mod i (omega arith),
        )
        | no ne ↦ get_or-set_ne new i j _ blank ne ∙ done (omega arith)
      ]

  -- With room to double, the new ring holds the same messages from slot 0 on.
  pub expand_queue_grows :
      q.cap < 2 ^ 31
      → let (grown, q') = expand_queue blank q in
        (grown ≡ true)
        × (q'.size < q'.cap)
        × (slots blank q'.queue q'.cap q'.head q'.size ≡ slots blank q.queue q.cap q.head q.size)
  unfolding expand_queue
  expand_queue_grows room =
      rw (lt→ltb q.cap (shl32 q.cap 1) (omega (arith, cap_pos v)))
        (refl, omega (arith, cap_pos v, v.size_in), slots_ext blank _ _ _ _ _ _ q.size same)
    where
      same :
          (i : ℕ)
          → i < q.size
          → get_or
              (copy_from blank q q.size 0 (replicate (shl32 q.cap 1) blank))
              ((0 + i) % shl32 q.cap 1)
              blank
            ≡ get_or q.queue ((q.head + i) % q.cap) blank
      same i lt =
          rw (zero-add, mod-eq_of_lt {n = i} {m = shl32 q.cap 1} (omega (arith, v.size_in)))
            (copied q.size 0 _ i (omega (arith, v.size_in))
              (omega (arith, v.size_in, length-replicate (shl32 q.cap 1) blank)) (λ h. elim h [ ])
              (omega arith))

  -- At 2^31 the doubled capacity wraps, and nothing changes.
  pub expand_queue_refuses : 2 ^ 31 ≤ q.cap → expand_queue blank q ≡ (false, q)
  unfolding expand_queue
  expand_queue_refuses full = rw (le→ltb (shl32 q.cap 1) q.cap (omega (arith, cap-le v)))
