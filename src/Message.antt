-- ===== src/Message.antt =====
-- src/message.h and src/message.cpp: what a message carries, and `message_clean`, which gives it up. A
-- block of memory is its number. `refs` gives its reference count, or `none` when it is free; a block
-- without a counter counts 1 while it is allocated. Releasing or freeing a free block, and freeing
-- one that counts more, are faults, the result `none`.
pub mod Clean
mod Examples
use node_lua.Common.{ℕ, zero, suc, ◌+◌, Option, none, some, Bool, true, false, ◌==◌, if◌then◌else◌}

abbrev pub Refs : Type 0
Refs = ℕ → Option ℕ

abbrev pub put_refs : Refs → ℕ → Option ℕ → Refs
put_refs refs m v n = if n == m then v else refs n

-- data_type with data_t. A pointer that may be NULL is an `Option`; `items` are the messages of an
-- array, by their data.
mutual
  pub data Data : Type 0 where
    nil : Data
    boolean : Bool → Data
    userdata number integer error : ℕ → Data
    buffer string binary tpack shared : Option ℕ → Data
    array : Option ℕ → Items → Data

  -- message_array_t
  pub data Items : Type 0 where
    end : Items
    item : Data → Items → Items

-- The counter goes down, and at 1 the block is freed: buffer_release and shared_t::release, which
-- also say whether it was.
pub release_at : Option ℕ → ℕ → Refs → Option (Bool × Refs)
release_at none m refs = none
release_at (some zero) m refs = none
release_at (some (suc zero)) m refs = some (true, put_refs refs m none)
release_at (some (suc (suc k))) m refs = some (false, put_refs refs m (some (suc k)))

-- nl_free and sdsfree
pub free_at : Option ℕ → ℕ → Refs → Option Refs
free_at (some (suc zero)) m refs = some (put_refs refs m none)
free_at _ m refs = none

-- A pointer is given up, unless it is NULL.
pub free_pointer : Option ℕ → Refs → Option Refs
unfolding free_at
free_pointer none refs = some refs
free_pointer (some m) refs = free_at (refs m) m refs

pub buffer_release : Option ℕ → Refs → Option (Data × Refs)
unfolding release_at
buffer_release none refs = some (buffer none, refs)
buffer_release (some m) refs = elim (release_at (refs m) m refs) [
  | none ↦ none
  | some (true, refs') ↦ some (buffer none, refs')
  | some (false, refs') ↦ some (buffer (some m), refs')
]

pub shared_release : Option ℕ → Refs → Option Refs
unfolding release_at
shared_release none refs = some refs
shared_release (some m) refs = elim (release_at (refs m) m refs) [
  | none ↦ none
  | some (last, refs') ↦ some refs'
]

abbrev pub with_data : Data → Option Refs → Option (Data × Refs)
with_data d none = none
with_data d (some refs) = some (d, refs)

abbrev pub free_after : Option ℕ → Option Refs → Option Refs
free_after p none = none
free_after p (some refs) = free_pointer p refs

-- message_clean leaves the data of the message, with its pointers reset, and the memory.
mutual
  unfolding free_pointer buffer_release shared_release

  pub message_clean : Data → Refs → Option (Data × Refs)
  message_clean nil refs = some (nil, refs)
  message_clean (boolean b) refs = some (boolean b, refs)
  message_clean (userdata p) refs = some (userdata p, refs)
  message_clean (number n) refs = some (number n, refs)
  message_clean (integer n) refs = some (integer n, refs)
  message_clean (error n) refs = some (error n, refs)
  message_clean (buffer p) refs = buffer_release p refs
  message_clean (string p) refs = with_data (string none) (free_pointer p refs)
  message_clean (binary p) refs = with_data (binary none) (free_pointer p refs)
  message_clean (tpack p) refs = with_data (tpack none) (free_pointer p refs)
  message_clean (shared p) refs = with_data (shared none) (shared_release p refs)
  message_clean (array none items) refs = some (array none items, refs)
  message_clean (array (some m) items) refs =
      with_data (array none end) (free_after (some m) (clean_items items refs))

  -- The loop of message_array_release.
  pub clean_items : Items → Refs → Option Refs
  clean_items end refs = some refs
  clean_items (item d items) refs = elim (message_clean d refs) [
    | none ↦ none
    | some (d', refs') ↦ clean_items items refs'
  ]
