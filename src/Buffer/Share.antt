-- ===== src/Buffer/Share.antt =====
-- `buffer_new`, `buffer_grab` and `buffer_release`: how a block comes to have owners and loses them.
use native.Mathlib.Decide.{dec_le}
use node_lua.Common.{
  ℕ, ◌+◌, ◌-◌, ◌^◌, ◌≤◌, ◌<◌, ◌≡◌, ◌≢◌, ap, ◌∙◌, List, [], ◌++◌, Option, some, none, Bool, true,
  false, ◌==◌, if◌then◌else◌, Bool-cases, ◌⊎◌, inl, inr, length, arith,
}
use node_lua.Common.Words.{add64, sub64}
use node_lua.Buffer.{
  buffer_new, init_bytes, at_least, fresh_block, put_bytes, grab, release, max_capacity,
}
use node_lua.Buffer.Heap.{Block, Heap, Ptr, update, ◌>>=◌}
use node_lua.Buffer.Blocks.{IsBlock, contents, put_bytes-Stores}
use node_lua.Buffer.Room.{fresh_block-HasShape, fresh_block-fields}

pub at_least-le : (want n : ℕ) → n ≤ at_least want n
unfolding at_least
at_least-le want n = ground arith

-- A new block with one owner that holds `text`.
pub record Created (text : List ℕ) (b : Block) : Type 0 where
  pub valid : IsBlock b
  pub sole : b.ref ≡ 1
  pub text_is : contents b ≡ text

module _ (grants : ℕ → Bool) (junk : ℕ) where
  new_runs :
      (want : ℕ) (init : Option (List ℕ)) (h : Heap) (b : Block)
      → at_least want (length (init_bytes init)) < max_capacity
      → grants (at_least want (length (init_bytes init))) ≡ true
      → put_bytes (fresh_block junk (at_least want (length (init_bytes init)))) (init_bytes init)
        ≡ some b
      → buffer_new grants junk want init h
        ≡ some (some h.next, record h { next = h.next + 1; cell = update h.cell h.next (some b) })
  unfolding buffer_new
  new_runs want init h b small got e = ground arith

  new_refused :
      (want : ℕ) (init : Option (List ℕ)) (h : Heap)
      → (max_capacity ≤ at_least want (length (init_bytes init)))
        ⊎ (grants (at_least want (length (init_bytes init))) ≡ false)
      → buffer_new grants junk want init h ≡ some (none, h)
  unfolding buffer_new
  new_refused want init h why = ground arith

  -- A buffer made at the next address, or NULL in an unchanged heap with one of the two reasons.
  abbrev pub Makes : ℕ → Option (List ℕ) → Heap → Option (Ptr × Heap) → Type 0
  Makes want init h result =
      ((b : Block) × (result
          ≡ some
              (some h.next, record h { next = h.next + 1; cell = update h.cell h.next (some b) }))
        × Created (init_bytes init) b)
      ⊎ ((result ≡ some (none, h))
          × ((max_capacity ≤ at_least want (length (init_bytes init)))
              ⊎ (grants (at_least want (length (init_bytes init))) ≡ false)))

  -- `buffer_new` makes a valid buffer of exactly the initial bytes at the next address, or answers
  -- NULL and changes nothing, which it does only at the limit or when the allocator refuses.
  pub buffer_new-Created :
      (want : ℕ) (init : Option (List ℕ)) (h : Heap)
      → Makes want init h (buffer_new grants junk want init h)
  buffer_new-Created want init h =
      elim (dec_le max_capacity (at_least want (length (init_bytes init)))) [
        | yes big ↦ inr (new_refused want init h (inl big), inl big)
        | no fits ↦ elim (Bool-cases (grants (at_least want (length (init_bytes init))))) [
          | inr denied ↦ inr (new_refused want init h (inr denied), inr denied)
          | inl got ↦ inl (made (omega arith) got)
        ]
      ]
    where
      text : List ℕ
      text = init_bytes init

      c : ℕ
      c = at_least want (length text)

      fields :
          ((fresh_block junk c).ref ≡ 1)
          × ((fresh_block junk c).cap - (fresh_block junk c).len ≡ c)
          × (contents (fresh_block junk c) ≡ [])
      fields = fresh_block-fields junk c

      made :
          c < max_capacity
          → grants c ≡ true
          → (b : Block) × (buffer_new grants junk want init h
              ≡ some (
                some h.next,
                record h { next = h.next + 1; cell = update h.cell h.next (some b) },
              ))
            × Created text b
      made small got =
          let (b, e, s) =
            put_bytes-Stores text (fresh_block-HasShape junk c (omega arith))
              (omega (arith, at_least-le want (length text), fields.1)) in
          (
            b,
            new_runs want init h b small got e,
            record {
              valid = record {
                shape = s.shape;
                ended = s.ended;
                owned = omega (arith, s.kept_ref, fields.0);
                counted = omega (arith, s.kept_ref, fields.0);
              };
              sole = s.kept_ref ∙ fields.0;
              text_is = s.grown ∙ ap (λ t. t ++ text) fields.2;
            },
          )

-- `buffer_grab` then `buffer_release` of a live block, with a count below the largest one, answer
-- the same handle and leave every block as it was.
pub release-grab :
    (p : ℕ) (b : Block) (h : Heap)
    → h.cell p ≡ some b
    → 0 < b.ref
    → b.ref + 1 < 2 ^ 64
    → (h' : Heap) × ((grab (some p) >>= release) h ≡ some (some p, h'))
      × ((r : ℕ) → h'.cell r ≡ h.cell r)
unfolding grab release
release-grab p b h at pos small = (
  record h {
    cell =
        update (update h.cell p (some (record b { ref = add64 b.ref 1 }))) p
          (some (record b { ref = sub64 (add64 b.ref 1) 1 }));
  },
  ground arith,
  λ r. ground arith,
)

-- `buffer_release` of a live block frees it and answers NULL when it has one owner; otherwise it
-- lowers the count by one and keeps the handle. No other block changes.
pub release_owner :
    (p : ℕ) (b : Block) (h : Heap)
    → h.cell p ≡ some b
    → 0 < b.ref
    → b.ref < 2 ^ 64
    → (h' : Heap) × (release (some p) h ≡ some ((if b.ref == 1 then none else some p), h'))
      × (h'.cell p ≡ (if b.ref == 1 then none else some (record b { ref = b.ref - 1 })))
      × ((r : ℕ) → r ≢ p → h'.cell r ≡ h.cell r)
unfolding release
release_owner p b h at pos small = (
  record h {
    cell = update h.cell p (if b.ref == 1 then none else some (record b { ref = sub64 b.ref 1 }));
  },
  ground arith,
  ground arith,
  λ r ne. ground arith,
)
