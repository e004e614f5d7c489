-- ===== src/Buffer/Cut/Laws.antt =====
-- `buffer_remove` and `buffer_split` on the buffer of a single owner: what is cut out and what stays.
use native.Mathlib.Nat.{zero-add}
use native.Mathlib.Decide.{dec_lt}
use node_lua.Common.{
  ℕ, ◌+◌, ◌-◌, ◌<◌, ◌≡◌, ◌≢◌, refl, ap, sym, ◌∙◌, List, [], ◌∷◌, ◌++◌, some, Bool, true, lt→ltb,
  eq→==, inl, inr, length, take, drop, min, length-take, length-drop, arith,
}
use node_lua.Buffer.{buffer_new, max_capacity, at_least}
use node_lua.Buffer.Heap.{Block, Heap, update, update_self, update_ne, ◌>>=◌}
use node_lua.Buffer.Bytes.{take-take, take_all}
use node_lua.Buffer.Blocks.{
  HasShape, IsBlock, contents, IsHeap, allocated-lt, store-IsHeap, alloc-IsHeap, length-contents,
}
use node_lua.Buffer.Share.{Created, buffer_new-Created}
use node_lua.Buffer.Cut.{lesser, close_gap, split_rest, buffer_split, buffer_remove}
use node_lua.Buffer.Cut.Slices.{Holds, close_gap-Holds, gap_text}

-- The buffer at `p` holds `text` after the call; the heap is valid and no other block changed.
pub record Leaves (h : Heap) (p : ℕ) (text : List ℕ) (h' : Heap) : Type 0 where
  pub out : Block
  pub at : h'.cell p ≡ some out
  pub text_is : contents out ≡ text
  pub sole : out.ref ≡ 1
  pub heap : IsHeap h'
  pub others : (r : ℕ) → r ≢ p → r < h.next → h'.cell r ≡ h.cell r

lesser-min : (n m : ℕ) → lesser n m ≡ min n m
unfolding lesser
lesser-min n m = ground arith

module _ (grants : ℕ → Bool) (junk : ℕ) where
  remove_runs :
      (p start n : ℕ) (h : Heap) (b b' : Block)
      → h.cell p ≡ some b
      → b.ref ≡ 1
      → 0 < n
      → start < b.len
      → close_gap b start (lesser n (b.len - start)) ≡ some b'
      → buffer_remove grants junk (some p) start n h
        ≡ some ((lesser n (b.len - start), some p), record h { cell = update h.cell p (some b') })
  unfolding buffer_remove
  remove_runs p start n h b b' at one pos inside e =
      rw (at, ◌>>=◌)
        (rw (lt→ltb 0 n pos, lt→ltb start b.len inside, eq→== b.ref 1 one, e, ◌>>=◌) (ground arith))

  rest_runs :
      (p k : ℕ) (h : Heap) (b b' : Block)
      → h.cell p ≡ some b
      → b.ref ≡ 1
      → close_gap b 0 k ≡ some b'
      → split_rest grants junk p k h ≡ some (some p, record h { cell = update h.cell p (some b') })
  unfolding split_rest
  rest_runs p k h b b' at one e = ground arith

  split_runs :
      (p n s : ℕ) (h h₁ h₂ : Heap) (b : Block)
      → h.cell p ≡ some b
      → 0 < n
      → 0 < b.len
      → buffer_new grants junk n (some (take (lesser n b.len) b.bytes)) h ≡ some (some s, h₁)
      → split_rest grants junk p (lesser n b.len) h₁ ≡ some (some p, h₂)
      → buffer_split grants junk (some p) n h ≡ some ((some s, some p), h₂)
  unfolding buffer_split
  split_runs p n s h h₁ h₂ b at pos len made rest =
      rw (at, ◌>>=◌) (rw (lt→ltb 0 n pos, lt→ltb 0 b.len len, made, ◌>>=◌) (rw (rest, ◌>>=◌)))

-- A block stored in place of the one at `p`.
store-Leaves :
    {h : Heap} (p : ℕ) (b b' : Block) (text : List ℕ)
    → IsHeap h
    → h.cell p ≡ some b
    → b.ref ≡ 1
    → Holds b' text b.ref
    → Leaves h p text (record h { cell = update h.cell p (some b') })
store-Leaves {h} p b b' text v at one w = record {
  out = b';
  at = update_self h.cell p (some b');
  text_is = w.text_is;
  sole = w.counted ∙ one;
  heap = store-IsHeap p b b' v at (record {
    shape = w.shape;
    ended = w.ended;
    owned = omega (arith, w.counted);
    counted = omega (arith, w.counted);
  });
  others = λ r ne _. update_ne h.cell p (some b') r ne;
}

-- The two parts of a text cut at `n`, when the code cuts at its end at the latest.
module _ (n : ℕ) (b : Block) (v : HasShape b) where
  front_part : take (lesser n b.len) b.bytes ≡ take n (contents b)
  front_part = elim (dec_lt n b.len) [
    | yes lt ↦
        ap (λ k. take k b.bytes) (lesser-min n b.len ∙ omega arith)
        ∙ sym (take-take n b.len b.bytes (omega arith))
    | no ge ↦
        ap (λ k. take k b.bytes) (lesser-min n b.len ∙ omega arith)
        ∙ sym (take_all n (contents b) (omega (arith, length-contents v)))
  ]

  back_part : drop (lesser n b.len) (contents b) ≡ drop n (contents b)
  back_part = elim (dec_lt n b.len) [
    | yes lt ↦ ap (λ k. drop k (contents b)) (lesser-min n b.len ∙ omega arith)
    | no ge ↦
        nothing (drop (lesser n b.len) (contents b)) (
          omega (
            arith,
            length-drop (lesser n b.len) (contents b),
            lesser-min n b.len,
            length-contents v,
          ))
        ∙ sym (
            nothing (drop n (contents b))
              (omega (arith, length-drop n (contents b), length-contents v)))
  ]
    where
      nothing : (xs : List ℕ) → length xs ≡ 0 → xs ≡ []
      nothing [] e = refl
      nothing (x ∷ xs) e = absurd (omega arith)

module _ (grants : ℕ → Bool) (junk : ℕ) {h : Heap} (v : IsHeap h) (p n : ℕ) (b : Block)
    (at : h.cell p ≡ some b) (one : b.ref ≡ 1) (pos : 0 < n) where
  block : IsBlock b
  block = v.blocks p b at

  -- A `buffer_remove` of at least one byte within the contents of a buffer with one owner takes out the `n` bytes at
  -- `start`, or all from there on if there are fewer, and answers how many it took.
  pub buffer_remove-Leaves :
      (start : ℕ)
      → start < b.len
      → let k = min n (b.len - start) in
        (h' : Heap) × (buffer_remove grants junk (some p) start n h ≡ some ((k, some p), h'))
        × Leaves h p (take start (contents b) ++ drop (start + k) (contents b)) h'
  buffer_remove-Leaves start inside = rw (← lesser-min n (b.len - start)) (
      let (b', e, w) =
        close_gap-Holds b start (lesser n (b.len - start)) block.shape
          (omega (arith, lesser-min n (b.len - start))) in
      (
        record h { cell = update h.cell p (some b') },
        remove_runs grants junk p start n h b b' at one pos inside e,
        store-Leaves p b b' (gap_text b start (lesser n (b.len - start))) v at one w,
      ))

  -- For a nonempty buffer with one owner, where `buffer_new` grants the space, a `buffer_split` of at
  -- least one byte hands out the first `n` bytes, or all if
  -- there are fewer, in a buffer of its own, and the old buffer keeps exactly the rest.
  pub buffer_split-Leaves :
      0 < b.len
      → at_least n (min n b.len) < max_capacity
      → grants (at_least n (min n b.len)) ≡ true
      → (h' : Heap) × (s : Block) × (buffer_split grants junk (some p) n h
          ≡ some ((some h.next, some p), h'))
        × (h'.cell h.next ≡ some s)
        × (contents s ≡ take n (contents b))
        × Leaves h p (drop n (contents b)) h'
  buffer_split-Leaves len small got =
      elim (buffer_new-Created grants junk n (some (take k b.bytes)) h) [
        | inl (s, made, c) ↦
            let (b', e, w) =
              close_gap-Holds b 0 k block.shape (omega (arith, lesser-min n b.len)) in
            let h₁ : Heap = record h { next = h.next + 1; cell = update h.cell h.next (some s) } in
            let at₁ : h₁.cell p ≡ some b =
              update_ne h.cell h.next (some s) p (λ same. omega (arith, allocated-lt p b v at))
              ∙ at in
            (
              record h₁ { cell = update h₁.cell p (some b') },
              s,
              split_runs grants junk p n h.next h h₁ _ b at pos len made
                  (rest_runs grants junk p k h₁ b b' at₁ one e),
              update_ne h₁.cell p (some b') h.next (λ same. omega (arith, allocated-lt p b v at))
                  ∙ update_self h.cell h.next (some s),
              c.text_is ∙ front_part n b block.shape,
              kept s b' c w,
            )
        | inr (_, inl big) ↦ absurd (omega (arith, big, size))
        | inr (_, inr denied) ↦ absurd (cc (ap grants size))
      ]
    where
      k : ℕ
      k = lesser n b.len

      size : at_least n (length (take k b.bytes)) ≡ at_least n (min n b.len)
      size = ap (at_least n) (
          omega (
            arith,
            length-take k b.bytes,
            lesser-min n b.len,
            block.shape.fits,
            block.shape.storage,
          ))

      kept :
          (s b' : Block)
          → Created (take k b.bytes) s
          → Holds b' (gap_text b 0 k) b.ref
          → let h₁ : Heap = record h { next = h.next + 1; cell = update h.cell h.next (some s) } in
            Leaves h p (drop n (contents b)) (record h₁ { cell = update h₁.cell p (some b') })
      kept s b' c w =
          let h₁ : Heap = record h { next = h.next + 1; cell = update h.cell h.next (some s) } in
          let l =
            store-Leaves {h = h₁} p b b' (gap_text b 0 k) (alloc-IsHeap s v c.valid)
              (update_ne h.cell h.next (some s) p (λ same. omega (arith, allocated-lt p b v at))
                ∙ at)
              one w in
          record {
            out = l.out;
            at = l.at;
            text_is =
                l.text_is ∙ ap (λ m. drop m (contents b)) (zero-add k) ∙ back_part n b block.shape;
            sole = l.sole;
            heap = l.heap;
            others = λ r ne lt.
                l.others r ne (omega arith)
                ∙ update_ne h.cell h.next (some s) r (λ same. omega arith);
          }
