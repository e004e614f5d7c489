-- ===== src/Buffer/Extend.antt =====
-- `buffer_append`, `buffer_append_char` and `buffer_reserve` on a heap: they append exactly their
-- bytes to their own buffer, or change nothing; no other handle sees a difference.
mod Runs
use native.Mathlib.Decide.{dec_le, ℕ_discrete}
use node_lua.Common.{
  ℕ, ◌+◌, ◌-◌, ◌^◌, ◌≤◌, ◌<◌, ◌≡◌, ◌≢◌, refl, ap, sym, ◌∙◌, List, [], ◌∷◌, ◌++◌, append-nil, Option,
  some, none, Bool, true, false, Bool-cases, ◌⊎◌, inl, inr, length, get_elem?, arith,
}
use node_lua.Common.Words.{sub64}
use node_lua.Buffer.{
  room, gen_capacity, put_bytes, resized, copied, release, extend, buffer_append,
  buffer_append_char, buffer_reserve, max_capacity,
}
use node_lua.Buffer.Heap.{Block, Heap, Ptr, update, update_self, update_ne}
use node_lua.Buffer.Blocks.{
  HasShape, IsBlock, contents, with_ref, Stores, put_bytes-Stores, IsHeap, allocated-lt,
  store-IsHeap, free-IsHeap, alloc-IsHeap,
}
use node_lua.Buffer.Room.{
  gen_capacity-fits, gen_capacity_zero, resized-Moved, resized-ref, resized-ended, copied-Moved,
}
use Runs.{extend_in_place, extend_realloc, extend_copy, extend_refused}

-- The buffer at `p` has become one at `q` with `bytes` at its end and room for `n` after its old
-- contents; the other owners of the block that was shared keep it, and all other blocks are as
-- they were.
pub record Extended (h : Heap) (p : ℕ) (b : Block) (bytes : List ℕ) (n : ℕ) (q : ℕ) (h' : Heap)
    : Type 0 where
  pub out : Block
  pub at : h'.cell q ≡ some out
  pub valid : IsBlock out
  pub sole : out.ref ≡ 1
  pub text : contents out ≡ contents b ++ bytes
  pub roomy : b.len + n ≤ out.cap
  pub others : (r : ℕ) → r ≢ p → r ≢ q → h'.cell r ≡ h.cell r
  pub left : b.ref ≢ 1 → (q ≢ p) × (h'.cell p ≡ some (record b { ref = sub64 b.ref 1 }))

-- Why an extension by `n` bytes is refused: the block cannot take them where it is, and the new
-- size is past the limit, or zero, or not granted.
pub record Refused (grants : ℕ → Bool) (b : Block) (n : ℕ) : Type 0 where
  pub no_place : (b.ref ≢ 1) ⊎ (b.cap - b.len < n)
  pub no_size : (max_capacity ≤ b.len + n) ⊎ (b.len + n ≡ 0) ⊎ (grants (gen_capacity b n) ≡ false)

-- A call that extends by `bytes`, or changes nothing and says so.
abbrev pub Extends :
    (ℕ → Bool) → Heap → ℕ → Block → List ℕ → ℕ → Option ((Bool × Ptr) × Heap) → Type 0
Extends grants h p b bytes n result =
    ((q : ℕ) × (h' : Heap) × (result ≡ some ((true, some q), h'))
      × Extended h p b bytes n q h'
      × IsHeap h')
    ⊎ ((result ≡ some ((false, some p), h)) × Refused grants b n)

-- What the code does to a block with room: it appends `bytes`.
abbrev Puts : (Block → Option Block) → List ℕ → ℕ → Type 0
Puts f bytes n =
    (b : Block)
    → HasShape b
    → get_elem? b.bytes b.len ≡ some 0
    → n ≤ b.cap - b.len
    → (b' : Block) × (f b ≡ some b') × Stores b bytes b'

-- The same for a copy, whose terminating zero is still to be written.
abbrev PutsRaw : (Block → Option Block) → List ℕ → ℕ → Type 0
PutsRaw f bytes n =
    (b : Block)
    → HasShape b
    → n ≤ b.cap - b.len
    → (b' : Block) × (f b ≡ some b') × Stores b bytes b'

module _ (grants : ℕ → Bool) (junk : ℕ) {h : Heap} (v : IsHeap h) (p : ℕ) (b : Block)
    (at : h.cell p ≡ some b) where
  block : IsBlock b
  block = v.blocks p b at

  old : p ≢ h.next
  old e = omega (arith, allocated-lt p b v at)

  -- The block that a store of `bytes` leaves is valid, if the stored-in one had an owner.
  Stores-IsBlock : {c c' : Block} (bytes : List ℕ) → Stores c bytes c' → c.ref ≡ 1 → IsBlock c'
  Stores-IsBlock bytes s one = record {
    shape = s.shape;
    ended = s.ended;
    owned = omega (arith, s.kept_ref);
    counted = omega (arith, s.kept_ref);
  }

  released-IsBlock : b.ref ≢ 1 → IsBlock (record b { ref = sub64 b.ref 1 })
  released-IsBlock ne = record {
    shape = with_ref _ block.shape;
    ended = block.ended;
    owned = omega (arith, block.owned, block.counted);
    counted = omega arith;
  }

  -- The heap after a move to a bigger block, and after a private copy.
  abbrev moved_heap : Block → Heap
  moved_heap b' = record h {
    next = h.next + 1;
    cell = update (update h.cell p none) h.next (some b');
  }

  abbrev copied_heap : Block → Heap
  copied_heap b' = record h {
    next = h.next + 1;
    cell = update (update h.cell h.next (some b')) p (some (record b { ref = sub64 b.ref 1 }));
  }

  module _ (bytes : List ℕ) (n : ℕ) (b' : Block) (w : IsBlock b') (one : b'.ref ≡ 1)
      (text : contents b' ≡ contents b ++ bytes) (roomy : b.len + n ≤ b'.cap) where
    moved_heap-Extended : b.ref ≡ 1 → Extended h p b bytes n h.next (moved_heap b')
    moved_heap-Extended sole = record {
      out = b';
      at = update_self (update h.cell p none) h.next (some b');
      valid = w;
      sole = one;
      text = text;
      roomy = roomy;
      others = λ r np nq.
          update_ne (update h.cell p none) h.next (some b') r nq ∙ update_ne h.cell p none r np;
      left = λ ne. absurd (ne sole);
    }

    copied_heap-Extended : Extended h p b bytes n h.next (copied_heap b')
    copied_heap-Extended = record {
      out = b';
      at =
          update_ne (update h.cell h.next (some b')) p (some (record b { ref = sub64 b.ref 1 }))
            h.next (λ e. old (sym e))
          ∙ update_self h.cell h.next (some b');
      valid = w;
      sole = one;
      text = text;
      roomy = roomy;
      others = λ r np nq.
          update_ne (update h.cell h.next (some b')) p (some (record b { ref = sub64 b.ref 1 })) r
            np
          ∙ update_ne h.cell h.next (some b') r nq;
      left = λ _. (
        λ e. old (sym e),
        update_self (update h.cell h.next (some b')) p (some (record b { ref = sub64 b.ref 1 })),
      );
    }

    copied_heap-IsHeap : b.ref ≢ 1 → IsHeap (copied_heap b')
    copied_heap-IsHeap ne =
        store-IsHeap p b (record b { ref = sub64 b.ref 1 }) (alloc-IsHeap b' v w)
          (update_ne h.cell h.next (some b') p old ∙ at) (released-IsBlock ne)

  module _ (own other : Block → Option Block) (bytes : List ℕ) (n : ℕ) (puts : Puts own bytes n)
      (puts_raw : PutsRaw other bytes n) (small : n < 2 ^ 64) where
    in_place :
        b.ref ≡ 1
        → n ≤ b.cap - b.len
        → Extends grants h p b bytes n (extend grants junk own other n p h)
    in_place one fits =
        let (b', e, s) = puts b block.shape block.ended fits in
        inl (
          p,
          record h { cell = update h.cell p (some b') },
          extend_in_place grants junk own other n p h b b' at one (ground (arith, block.shape.fits))
              e,
          record {
            out = b';
            at = ground arith;
            valid = Stores-IsBlock bytes s one;
            sole = s.kept_ref ∙ one;
            text = s.grown;
            roomy = omega (arith, s.kept_cap, block.shape.fits);
            others = λ r np nq. ground arith;
            left = λ ne. absurd (ne one);
          },
          store-IsHeap p b b' v at (Stores-IsBlock bytes s one),
        )

    moved :
        b.ref ≡ 1
        → b.cap - b.len < n
        → 0 < gen_capacity b n
        → grants (gen_capacity b n) ≡ true
        → Extends grants h p b bytes n (extend grants junk own other n p h)
    moved one over pos got =
        let (len_fits, cap_small) = gen_capacity-fits n block.shape small pos in
        let c = gen_capacity b n in
        let m = resized-Moved junk c block.shape (omega arith) cap_small in
        let (b', e, s) =
          puts (resized junk b c) m.shape
            (rw m.same_len (resized-ended junk c block.shape (omega arith) block.ended))
            (omega (arith, m.same_len, m.new_cap)) in
        let one' = resized-ref junk b c ∙ one in
        let w = Stores-IsBlock bytes s one' in
        inl (
          h.next,
          moved_heap b',
          extend_realloc grants junk own other n p h b b' at one (ground (arith, block.shape.fits))
              pos got e,
          moved_heap-Extended bytes n b' w (s.kept_ref ∙ one')
              (s.grown ∙ ap (λ t. t ++ bytes) m.same) (omega (arith, s.kept_cap, m.new_cap)) one,
          alloc-IsHeap b' (free-IsHeap p v) w,
        )

    copies :
        b.ref ≢ 1
        → 0 < gen_capacity b n
        → grants (gen_capacity b n) ≡ true
        → Extends grants h p b bytes n (extend grants junk own other n p h)
    copies ne pos got =
        let (len_fits, cap_small) = gen_capacity-fits n block.shape small pos in
        let c = gen_capacity b n in
        let (copy, ec, one, m) = copied-Moved junk c block.shape (omega arith) cap_small in
        let (b', e, s) = puts_raw copy m.shape (omega (arith, m.same_len, m.new_cap)) in
        let w = Stores-IsBlock bytes s one in
        inl (
          h.next,
          copied_heap b',
          extend_copy grants junk own other n p h b copy b' at old ne pos got ec e,
          copied_heap-Extended bytes n b' w (s.kept_ref ∙ one)
              (s.grown ∙ ap (λ t. t ++ bytes) m.same) (omega (arith, s.kept_cap, m.new_cap)),
          copied_heap-IsHeap bytes n b' w (s.kept_ref ∙ one) (s.grown ∙ ap (λ t. t ++ bytes) m.same)
              (omega (arith, s.kept_cap, m.new_cap)) ne,
        )

    -- Each way through the code.
    extend-Extends : Extends grants h p b bytes n (extend grants junk own other n p h)
    extend-Extends = elim (ℕ_discrete b.ref 1) [
      | yes one ↦ elim (dec_le n (b.cap - b.len)) [
        | yes fits ↦ in_place one fits
        | no over ↦
            grow_or_refuse (moved one (omega arith)) (inr (ground (arith, block.shape.fits)))
              (inr (omega arith))
      ]
      | no ne ↦ grow_or_refuse (copies ne) (inl ne) (inl ne)
    ]
      where
        grow_or_refuse :
            (0 < gen_capacity b n
              → grants (gen_capacity b n) ≡ true
              → Extends grants h p b bytes n (extend grants junk own other n p h))
            → ((b.ref ≢ 1) ⊎ (room b < n))
            → ((b.ref ≢ 1) ⊎ (b.cap - b.len < n))
            → Extends grants h p b bytes n (extend grants junk own other n p h)
        grow_or_refuse grow full full' = elim (ℕ_discrete (gen_capacity b n) 0) [
          | yes zero_cap ↦ inr (
            extend_refused grants junk own other n p h b at full (inl zero_cap),
            record { no_place = full'; no_size = limit_or_empty zero_cap },
          )
          | no some_cap ↦ elim (Bool-cases (grants (gen_capacity b n))) [
            | inl got ↦ grow (omega arith) got
            | inr denied ↦ inr (
              extend_refused grants junk own other n p h b at full (inr denied),
              record { no_place = full'; no_size = inr (inr denied) },
            )
          ]
        ]
          where
            limit_or_empty :
                gen_capacity b n ≡ 0
                → (max_capacity ≤ b.len + n) ⊎ (b.len + n ≡ 0) ⊎ (grants (gen_capacity b n) ≡ false)
            limit_or_empty e = elim (ℕ_discrete (b.len + n) 0) [
              | yes empty ↦ inr (inl empty)
              | no some_bytes ↦ inl (gen_capacity_zero n block.shape small (omega arith) e)
            ]

  -- `buffer_append` of a valid buffer never faults. Either it appends exactly its bytes to its own
  -- buffer and no other handle sees a difference, or it changes nothing and answers false.
  pub buffer_append-Extends :
      (bytes : List ℕ)
      → length bytes < 2 ^ 64
      → Extends grants h p b bytes
          (length bytes)
          (buffer_append grants junk (some p) (some bytes) h)
  unfolding buffer_append
  buffer_append-Extends bytes small =
      extend-Extends (λ c. put_bytes c bytes) (λ c. put_bytes c bytes) bytes (length bytes)
        (λ c shape ended free. put_bytes-Stores bytes shape free)
        (λ c shape free. put_bytes-Stores bytes shape free) small

  -- `buffer_append_char` of a valid buffer never faults. Either it appends its one byte to its own
  -- buffer and no other handle sees a difference, or it changes nothing and answers false.
  pub buffer_append_char-Extends :
      (ch : ℕ) → Extends grants h p b (ch ∷ []) 1 (buffer_append_char grants junk (some p) ch h)
  unfolding buffer_append_char
  buffer_append_char-Extends ch =
      extend-Extends (λ c. put_bytes c (ch ∷ [])) (λ c. put_bytes c (ch ∷ [])) (ch ∷ []) 1
        (λ c shape ended free. put_bytes-Stores (ch ∷ []) shape free)
        (λ c shape free. put_bytes-Stores (ch ∷ []) shape free) (omega arith)

  -- `buffer_reserve` of a valid buffer never faults. Either it gets room for `n` bytes in a buffer of its own with the same contents, or it
  -- changes nothing and answers NULL.
  pub buffer_reserve-Extends :
      (n : ℕ) → n < 2 ^ 64 → Extends grants h p b [] n (buffer_reserve grants junk (some p) n h)
  unfolding buffer_reserve
  buffer_reserve-Extends n small =
      extend-Extends some (λ c. put_bytes c []) [] n
        (λ c shape ended free. (
          c,
          refl,
          record {
            shape = shape;
            ended = ended;
            kept_ref = refl;
            kept_cap = refl;
            grown = sym (append-nil (contents c));
          },
        ))
        (λ c shape free. put_bytes-Stores [] shape (omega arith)) small
