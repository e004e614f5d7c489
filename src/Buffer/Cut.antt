-- ===== src/Buffer/Cut.antt =====
-- src/buffer.cpp: `buffer_clear`, `buffer_concat`, `buffer_adjust_len`, `buffer_split` and
-- `buffer_remove`.
pub mod Slices
pub mod Laws
use node_lua.Common.{
  ℕ, ◌+◌, ◌-◌, List, [], ◌∷◌, Option, none, some, Bool, true, false, ◌&&◌, ltb, leb, ◌==◌,
  if◌then◌else◌, length, take, drop, not,
}
use node_lua.Common.Words.{add32, sub32, add64}
use node_lua.Buffer.{put_bytes, fresh_block, buffer_new, buffer_append, release, default_capacity}
use node_lua.Buffer.Heap.{Block, Ptr, M, pure, lift, load, store, alloc, ◌>>=◌, ◌>>◌, write_at}

-- `len < most ? len : most`
pub lesser : ℕ → ℕ → ℕ
lesser n most = if ltb n most then n else most

-- The bytes behind `start + k` move down to `start`, and a zero ends the `n` bytes that are left.
pub shift_down : Block → ℕ → ℕ → ℕ → Option Block
shift_down b start k n =
    let shifted : Option (List ℕ) =
      (if ltb start n
        then write_at b.bytes start (take (n - start) (drop (start + k) b.bytes))
        else some b.bytes) in
    elim shifted [
      | none ↦ none
      | some bytes ↦ elim (write_at bytes n (0 ∷ [])) [
        | none ↦ none
        | some ended ↦ some (record b { len = n; bytes = ended })
      ]
    ]

-- `m_len -= k`, and `k` bytes taken out at `start`.
pub close_gap : Block → ℕ → ℕ → Option Block
close_gap b start k = shift_down b start k (sub32 b.len k)

-- `m_len = 0; m_data[0] = 0`.
unfoldable pub emptied : Block → Option Block
emptied b = elim (write_at b.bytes 0 (0 ∷ [])) [
  | none ↦ none
  | some bytes ↦ some (record b { len = 0; bytes = bytes })
]

-- `dst` with the `start` first bytes of `src`, then those behind `start + k`, `n` in all.
pub copy_around : Block → Block → ℕ → ℕ → ℕ → Option Block
copy_around src dst start k n = elim (write_at dst.bytes 0 (take start src.bytes)) [
  | none ↦ none
  | some front ↦ shift_in front
]
  where
    shift_in : List ℕ → Option Block
    shift_in front =
        let filled : Option (List ℕ) =
          (if ltb start n
            then write_at front start (take (n - start) (drop (start + k) src.bytes))
            else some front) in
        elim filled [
          | none ↦ none
          | some bytes ↦ elim (write_at bytes n (0 ∷ [])) [
            | none ↦ none
            | some ended ↦ some (record dst { len = n; bytes = ended })
          ]
        ]

-- The private copy that `buffer_remove` makes of a shared block, without `k` bytes at `start`.
pub copy_without : Block → Block → ℕ → ℕ → Option Block
copy_without src dst start k = copy_around src dst start k (sub32 src.len k)

-- buffer_adjust_len
unfoldable pub buffer_adjust_len : Ptr → ℕ → M Bool
buffer_adjust_len none add = pure (add == 0)
buffer_adjust_len (some p) add = do
  b ← load p
  let n = add64 b.len add
  if leb add n && leb n b.cap
      then (do store p (record b { len = n }); pure true)
      else pure (add == 0)

module _ (grants : ℕ → Bool) (junk : ℕ) where
  -- buffer_clear
  unfoldable pub buffer_clear : Ptr → M (Bool × Ptr)
  buffer_clear none = pure (true, none)
  buffer_clear (some p) = do
    b ← load p
    if b.ref == 1
        then (do b' ← lift (emptied b); store p b'; pure (true, some p))
        else (if grants b.len
            then (do
              b' ← lift (emptied (fresh_block junk b.len))
              q ← alloc b'
              release (some p)
              pure (true, some q))
            else pure (false, some p))

  -- buffer_concat
  unfoldable pub buffer_concat : Ptr → Ptr → M (Bool × Ptr)
  buffer_concat none none = pure (true, none)
  buffer_concat (some p) none = pure (true, some p)
  buffer_concat none (some q) = pure (false, none)
  buffer_concat (some p) (some q) = do
    src ← load q
    buffer_append grants junk (some p) (some (take src.len src.bytes))

  -- What `buffer_split` leaves in `buffer_ref` once the first `k` bytes are copied out.
  split_rest : ℕ → ℕ → M Ptr
  split_rest p k = do
    b ← load p
    if b.ref == 1
        then (do b' ← lift (close_gap b 0 k); store p b'; pure (some p))
        else (if ltb k b.len
            then (do
              q ← buffer_new grants junk b.len (some (take (b.len - k) (drop k b.bytes)))
              release (some p)
              pure q)
            else (do release (some p); buffer_new grants junk default_capacity none))

  -- buffer_split: the buffer split off, and the new `buffer_ref`.
  pub buffer_split : Ptr → ℕ → M (Ptr × Ptr)
  buffer_split none n = do q ← buffer_new grants junk default_capacity none; pure (q, none)
  buffer_split (some p) n = do
    b ← load p
    if ltb 0 n && ltb 0 b.len
        then (do
          let k = lesser n b.len
          s ← buffer_new grants junk n (some (take k b.bytes))
          elim s [
            | some q ↦ (do rest ← split_rest p k; pure (some q, rest))
            | none ↦ (do q ← buffer_new grants junk default_capacity none; pure (q, some p))
          ])
        else (do q ← buffer_new grants junk default_capacity none; pure (q, some p))

  -- buffer_remove: the number of bytes removed, and the new `buffer_ref`.
  pub buffer_remove : Ptr → ℕ → ℕ → M (ℕ × Ptr)
  buffer_remove none start n = pure (0, none)
  buffer_remove (some p) start n = do
    b ← load p
    let k = lesser n (b.len - start)
    if ltb 0 n && ltb start b.len
        then (if b.ref == 1
            then (do b' ← lift (close_gap b start k); store p b'; pure (k, some p))
            else if ltb k b.len
            then (do
              q ← buffer_new grants junk (b.len - k) none
              elim q [
                | none ↦ pure tt
                | some r ↦ (do dst ← load r; d ← lift (copy_without b dst start k); store r d)
              ]
              release (some p)
              pure (k, q))
            else (do
              release (some p)
              q ← buffer_new grants junk default_capacity none
              pure (k, q)))
        else pure (0, some p)
