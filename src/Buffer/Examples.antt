-- ===== src/Buffer/Examples.antt =====
-- A heap of one block, with one owner and with two, and the operations on it.
use node_lua.Common.{
  ℕ, ◌+◌, ◌≡◌, refl, ◌<◌, [], ◌∷◌, Option, some, none, Bool, true, false, arith, ◌^◌,
}
use node_lua.Buffer.{
  buffer_new, buffer_append, release, gen_capacity, at_least, extend, put_bytes, copied, resized,
  fresh_block,
}
use node_lua.Buffer.Heap.{Block, Heap, update, write_at}
use node_lua.Buffer.Blocks.{IsBlock, IsHeap, alloc-IsHeap, contents}
use node_lua.Buffer.Extend.{Extends, buffer_append-Extends}
use node_lua.Buffer.Share.{Makes, buffer_new-Created}
use node_lua.Buffer.Cut.{
  buffer_clear, buffer_concat, buffer_adjust_len, emptied, buffer_remove, buffer_split,
}
use node_lua.Buffer.Cut.Laws.{Leaves, buffer_remove-Leaves, buffer_split-Leaves}

-- "hey" in four bytes of storage.
abbrev hey : ℕ → Block
hey owners = record { ref = owners; len = 3; cap = 4; bytes = 104 ∷ 101 ∷ 121 ∷ 0 ∷ 0 ∷ [] }

abbrev empty_heap : Heap
empty_heap = record { next = 0; cell = λ _. none }

abbrev one_block : ℕ → Heap
one_block owners = record { next = 0 + 1; cell = update empty_heap.cell 0 (some (hey owners)) }

hey-IsBlock : (owners : ℕ) → 0 < owners → owners < 2 ^ 64 → IsBlock (hey owners)
hey-IsBlock owners pos small = record {
  shape = record { fits = omega arith; small = omega arith; storage = refl };
  ended = refl;
  owned = pos;
  counted = small;
}

one_block-IsHeap : (owners : ℕ) → 0 < owners → owners < 2 ^ 64 → IsHeap (one_block owners)
one_block-IsHeap owners pos small =
    alloc-IsHeap {h = empty_heap} (hey owners)
      (record { fresh = λ r le. refl; blocks = λ r b e. cc }) (hey-IsBlock owners pos small)

-- An allocator that grants everything, and one that grants nothing.
abbrev ample : ℕ → Bool
ample _ = true

abbrev exhausted : ℕ → Bool
exhausted _ = false

-- What a call answers, and the first two blocks after it.
abbrev answer_and_blocks :
    Option ((Bool × Option ℕ) × Heap) → Option ((Bool × Option ℕ) × Option Block × Option Block)
answer_and_blocks none = none
answer_and_blocks (some (answer, h)) = some (answer, h.cell 0, h.cell 1)

-- A shared buffer is copied before two bytes are appended, and the other owner keeps "hey".
append_shared :
    answer_and_blocks (buffer_append ample 7 (some 0) (some (33 ∷ 10 ∷ [])) (one_block 2))
    ≡ some (
      (true, some 1),
      some (hey 1),
      some (record {
        ref = 1;
        len = 5;
        cap = 10;
        bytes = 104 ∷ 101 ∷ 121 ∷ 33 ∷ 10 ∷ 0 ∷ 7 ∷ 7 ∷ 7 ∷ 7 ∷ 7 ∷ [];
      }),
    )
unfolding buffer_append extend gen_capacity copied put_bytes release write_at fresh_block
append_shared = refl

-- An empty buffer replaces a shared one, which keeps its text for its other owner.
clear_shared :
    answer_and_blocks (buffer_clear ample 7 (some 0) (one_block 2))
    ≡ some (
      (true, some 1),
      some (hey 1),
      some (record { ref = 1; len = 0; cap = 3; bytes = 0 ∷ 7 ∷ 7 ∷ 7 ∷ [] }),
    )
unfolding buffer_clear emptied release write_at fresh_block
clear_shared = refl

-- A buffer appended to itself.
concat_self :
    answer_and_blocks (buffer_concat ample 7 (some 0) (some 0) (one_block 1))
    ≡ some (
      (true, some 1),
      none,
      some (record {
        ref = 1;
        len = 6;
        cap = 12;
        bytes = 104 ∷ 101 ∷ 121 ∷ 104 ∷ 101 ∷ 121 ∷ 0 ∷ 7 ∷ 7 ∷ 7 ∷ 7 ∷ 7 ∷ 7 ∷ [];
      }),
    )
unfolding buffer_concat buffer_append extend gen_capacity resized put_bytes write_at
concat_self = refl

-- A longer length is refused beyond the capacity.
adjust_too_far : buffer_adjust_len (some 0) 2 (one_block 1) ≡ some (false, one_block 1)
unfolding buffer_adjust_len
adjust_too_far = refl

buffer_append-Extends_example :
    Extends exhausted
      (one_block 1)
      0
      (hey 1)
      (33 ∷ 10 ∷ [])
      2
      (buffer_append exhausted 7 (some 0) (some (33 ∷ 10 ∷ [])) (one_block 1))
buffer_append-Extends_example =
    buffer_append-Extends exhausted 7 (one_block-IsHeap 1 (omega arith) (omega arith)) 0 (hey 1)
      refl (33 ∷ 10 ∷ []) (omega arith)

buffer_remove-Leaves_example :
    (h' : Heap) × (buffer_remove ample 7 (some 0) 1 1 (one_block 1) ≡ some ((1, some 0), h'))
    × Leaves (one_block 1) 0 (104 ∷ 121 ∷ []) h'
buffer_remove-Leaves_example =
    buffer_remove-Leaves ample 7 (one_block-IsHeap 1 (omega arith) (omega arith)) 0 1 (hey 1) refl
      refl (omega arith) 1 (omega arith)

buffer_split-Leaves_example :
    (h' : Heap) × (s : Block) × (buffer_split ample 7 (some 0) 2 (one_block 1)
      ≡ some ((some 1, some 0), h'))
    × (h'.cell 1 ≡ some s)
    × (contents s ≡ 104 ∷ 101 ∷ [])
    × Leaves (one_block 1) 0 (121 ∷ []) h'
unfolding at_least
buffer_split-Leaves_example =
    buffer_split-Leaves ample 7 (one_block-IsHeap 1 (omega arith) (omega arith)) 0 2 (hey 1) refl
      refl (omega arith) (omega arith) (omega arith) refl

buffer_new-Created_example :
    Makes ample 7 10
      (some (104 ∷ 101 ∷ []))
      empty_heap
      (buffer_new ample 7 10 (some (104 ∷ 101 ∷ [])) empty_heap)
buffer_new-Created_example = buffer_new-Created ample 7 10 (some (104 ∷ 101 ∷ [])) empty_heap
