-- ===== src/Buffer.antt =====
-- src/buffer.h and src/buffer.cpp: reference-counted byte buffers that are copied on write.
-- A `buffer_t` is the address of a block in a heap, or `none` for NULL. An operation on a
-- `buffer_t&` returns the new address. A computation that ends in `none` is a fault: a read
-- through a dangling pointer or a write past the end of a block.
-- The calls of one thread are modelled, so a reference count does not change under an operation.
pub mod Heap
pub mod Bytes
pub mod Blocks
pub mod Room
pub mod Extend
pub mod Share
pub mod Cut
mod Examples
use node_lua.Common.{
  ℕ, ◌+◌, ◌-◌, ◌*◌, ◌^◌, List, [], ◌∷◌, ◌++◌, Option, none, some, Bool, true, false, not, ◌&&◌,
  ◌||◌, ltb, leb, ◌==◌, if◌then◌else◌, length, take, drop, replicate,
}
use node_lua.Common.Words.{add32, add64, sub64}
use Heap.{Block, Ptr, M, pure, lift, load, store, alloc, free, ◌>>=◌, ◌>>◌, write_at}

-- DEFAULT_BUFFER_CAPACITY, MAX_BUFFER_CAPACITY and MAX_BUFFER_PREALLOC
abbrev pub default_capacity : ℕ
default_capacity = 32

abbrev pub max_capacity : ℕ
max_capacity = 0x7fffffff

abbrev pub max_prealloc : ℕ
max_prealloc = 1024 * 1024

-- `(size_t)(m_cap - m_len)`: the `int32_t` difference, sign-extended.
abbrev pub room : Block → ℕ
room b = if leb b.len b.cap then b.cap - b.len else 2 ^ 64 - (b.len - b.cap)

-- buffer_gen_capacity
pub gen_capacity : Block → ℕ → ℕ
gen_capacity b add_len =
    let new_cap = add64 b.len add_len in
    if leb max_capacity new_cap || ltb new_cap add_len
    then 0
    else (let grown = if ltb new_cap max_prealloc then new_cap * 2 else new_cap + max_prealloc in
        if ltb max_capacity grown then max_capacity else grown)

-- Bytes stored at the end, the new length, and the terminating zero.
pub put_bytes : Block → List ℕ → Option Block
put_bytes b bytes = elim (write_at b.bytes b.len bytes) [
  | none ↦ none
  | some stored ↦ elim (write_at stored (add32 b.len (length bytes)) (0 ∷ [])) [
    | none ↦ none
    | some ended ↦ some (record b { len = add32 b.len (length bytes); bytes = ended })
  ]
]

-- buffer_release. `atomic_dec` returns the count before the decrement, which is not 1 there.
pub release : Ptr → M Ptr
release none = pure none
release (some p) = do
  b ← load p
  if b.ref == 1
      then (do free p; pure none)
      else (do store p (record b { ref = sub64 b.ref 1 }); pure (some p))

-- buffer_grab
pub grab : Ptr → M Ptr
grab none = pure none
grab (some p) = do b ← load p; store p (record b { ref = add64 b.ref 1 }); pure (some p)

-- The `init_len` bytes at `init`; every call with a null `init` has `init_len` 0.
abbrev init_bytes : Option (List ℕ) → List ℕ
init_bytes none = []
init_bytes (some bytes) = bytes

-- `if (cap < init_len) cap = init_len`.
pub at_least : ℕ → ℕ → ℕ
at_least want n = if ltb want n then n else want

-- `junk` is what a byte of fresh memory holds.
module _ (junk : ℕ) where
  pub fresh_block : ℕ → Block
  fresh_block c = record { ref = 1; len = 0; cap = c; bytes = replicate (c + 1) junk }

  -- `realloc` to capacity `c`: the old bytes stay.
  pub resized : Block → ℕ → Block
  resized b c = record b {
    cap = c;
    bytes = take (c + 1) b.bytes ++ replicate (c + 1 - length b.bytes) junk;
  }

  -- The private copy of a shared block, in a block of capacity `c`.
  pub copied : Block → ℕ → Option Block
  unfolding fresh_block
  copied b c = elim (write_at (fresh_block c).bytes 0 (take b.len b.bytes)) [
    | none ↦ none
    | some bytes ↦ some (record { ref = 1; len = b.len; cap = c; bytes = bytes })
  ]

-- `grants c`: whether the allocator grants a block of capacity `c`.
module _ (grants : ℕ → Bool) (junk : ℕ) where
  -- buffer_new
  pub buffer_new : ℕ → Option (List ℕ) → M Ptr
  buffer_new want init =
      let c = at_least want (length (init_bytes init)) in
      if leb max_capacity c
      then pure none
      else if grants c
      then (do
        b ← lift (put_bytes (fresh_block junk c) (init_bytes init))
        q ← alloc b
        pure (some q))
      else pure none

  -- What `buffer_append`, `buffer_append_char` and `buffer_reserve` share: a block with `n` more
  -- bytes of room, the same one, a bigger one, or a private copy. `own` is what they then do to a
  -- block of their own, and `other` what they do to a copy.
  pub extend : (Block → Option Block) → (Block → Option Block) → ℕ → ℕ → M (Bool × Ptr)
  extend own other n p = do
    b ← load p
    let c = gen_capacity b n
    if b.ref == 1
        then (if leb n (room b)
            then (do b' ← lift (own b); store p b'; pure (true, some p))
            else if ltb 0 c && grants c
            then (do b' ← lift (own (resized junk b c)); free p; q ← alloc b'; pure (true, some q))
            else pure (false, some p))
        else (if ltb 0 c && grants c
            then (do
              copy ← lift (copied junk b c)
              b' ← lift (other copy)
              q ← alloc b'
              release (some p)
              pure (true, some q))
            else pure (false, some p))

  -- buffer_append; `none` for a null `data`. The bytes are those of `data` at the call, also where it points
  -- into the buffer, whose block `nl_realloc` may move.
  pub buffer_append : Ptr → Option (List ℕ) → M (Bool × Ptr)
  buffer_append none bytes = pure (false, none)
  buffer_append (some p) none = pure (true, some p)
  buffer_append (some p) (some bytes) =
      extend (λ b. put_bytes b bytes) (λ b. put_bytes b bytes) (length bytes) p

  -- buffer_append_char
  pub buffer_append_char : Ptr → ℕ → M (Bool × Ptr)
  buffer_append_char none ch = pure (false, none)
  buffer_append_char (some p) ch =
      extend (λ b. put_bytes b (ch ∷ [])) (λ b. put_bytes b (ch ∷ [])) 1 p

  -- buffer_reserve: true where it returns the address `m_data + m_len`, false where it returns NULL.
  pub buffer_reserve : Ptr → ℕ → M (Bool × Ptr)
  buffer_reserve none n = pure (false, none)
  buffer_reserve (some p) n = extend some (λ b. put_bytes b []) n p
