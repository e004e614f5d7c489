-- ===== src/ContextMgr.antt =====
-- src/context_mgr.h and src/context_mgr.cpp: the handles of contexts. A context is its number, and
-- `handles` gives the handle that each object has (`m_handle`, 0 for none); a slot holds a context or
-- `none` for NULL. Each function is what runs under the lock of the manager. A failed ASSERT and a
-- context read through NULL are faults, the result `none`. The reference that the table holds belongs
-- to src/context.cpp (`on_registered` and `on_retired`).
pub mod Table
pub mod Probe
pub mod Expand
pub mod Register
mod Examples
use node_lua.Common.{
  ℕ, zero, suc, ◌+◌, ◌-◌, ◌^◌, ◌%◌, ◌*◌, Option, none, some, Bool, true, false, not, ◌||◌, bit_and,
  ◌==◌, if◌then◌else◌,
}
use node_lua.Common.Words.{add32, sub32, shl32}

-- DEFAULT_CTX_SLOT_SIZE and MAX_CTX_SIZE
abbrev pub default_ctx_slot_size : ℕ
default_ctx_slot_size = 4

abbrev pub max_ctx_size : ℕ
max_ctx_size = 0xffffffff

pub record ContextMgr : Type 0 where
  pub handle_index : ℕ
  pub ctx_size : ℕ
  pub slot_cap : ℕ
  pub ctx_slot : ℕ → Option ℕ
  pub handles : ℕ → ℕ

-- A write to one slot, and to the handle of one context.
abbrev pub put_slot : (ℕ → Option ℕ) → ℕ → Option ℕ → ℕ → Option ℕ
put_slot slots i v j = if j == i then v else slots j

abbrev pub put_handle : (ℕ → ℕ) → ℕ → ℕ → ℕ → ℕ
put_handle handles c handle d = if d == c then handle else handles d

abbrev pub init : (ℕ → ℕ) → ContextMgr
init handles = record {
  handle_index = 1;
  ctx_size = 0;
  slot_cap = default_ctx_slot_size;
  ctx_slot = λ i. none;
  handles = handles;
}

pub set_handle_index : ContextMgr → ℕ → ContextMgr
set_handle_index mgr index = record mgr { handle_index = index }

-- `handle & (cap - 1)`
abbrev pub hash_of : ℕ → ℕ → ℕ
hash_of cap handle = bit_and handle (sub32 cap 1)

-- The loop of `expand_slot` from slot `i` on, with `rounds` to go.
pub rehash : (ℕ → ℕ) → (ℕ → Option ℕ) → ℕ → ℕ → ℕ → (ℕ → Option ℕ) → Option (ℕ → Option ℕ)
rehash handles slots new_cap zero i new_slot = some new_slot
rehash handles slots new_cap (suc rounds) i new_slot = elim (slots i) [
  | none ↦ none
  | some c ↦ elim (new_slot (hash_of new_cap (handles c))) [
    | some _ ↦ none
    | none ↦
        rehash handles slots new_cap rounds (i + 1)
          (put_slot new_slot (hash_of new_cap (handles c)) (some c))
  ]
]

pub expand_slot : ContextMgr → Option ContextMgr
unfolding rehash
expand_slot mgr =
    let new_cap = shl32 mgr.slot_cap 2 in
    elim (rehash mgr.handles mgr.ctx_slot new_cap mgr.slot_cap 0 (λ i. none)) [
      | none ↦ none
      | some new_slot ↦ some (record mgr { ctx_slot = new_slot; slot_cap = new_cap })
    ]

-- The index and the handle of round `i`: handle 0 is skipped.
abbrev pub next_handle : ℕ → ℕ → ℕ → ℕ × ℕ
next_handle cap i index =
    if add32 i index == 0
    then (add32 index cap, add32 i (add32 index cap))
    else (index, add32 i index)

-- The inner loop of `register_context`: the index it leaves, and the free handle that it finds.
pub probe : (ℕ → Option ℕ) → ℕ → ℕ → ℕ → ℕ → ℕ × Option ℕ
probe slots cap zero i index = (index, none)
probe slots cap (suc rounds) i index =
    let (index', handle) = next_handle cap i index in
    elim (slots (hash_of cap handle)) [
      | none ↦ (index', some handle)
      | some _ ↦ probe slots cap rounds (i + 1) index'
    ]

-- What `register_context` does with the handle that it found.
abbrev pub place : ContextMgr → ℕ → ℕ → ContextMgr
place mgr c handle = record mgr {
  ctx_slot = put_slot mgr.ctx_slot (hash_of mgr.slot_cap handle) (some c);
  handle_index = add32 handle 1;
  ctx_size = add32 mgr.ctx_size 1;
  handles = put_handle mgr.handles c handle;
}

-- The endless loop, for as many rounds as the fuel; `none` when it runs out.
pub register_loop : ℕ → ContextMgr → ℕ → Option ContextMgr
unfolding probe expand_slot
register_loop zero mgr c = none
register_loop (suc fuel) mgr c =
    let (index, found) = probe mgr.ctx_slot mgr.slot_cap mgr.slot_cap 0 mgr.handle_index in
    elim found [
      | some handle ↦ some (place mgr c handle)
      | none ↦ elim (expand_slot (record mgr { handle_index = index })) [
        | none ↦ none
        | some mgr' ↦ register_loop fuel mgr' c
      ]
    ]

-- register_context, with its result.
pub register_context : ℕ → ContextMgr → ℕ → Option (Bool × ContextMgr)
unfolding register_loop
register_context fuel mgr c =
    if (mgr.ctx_size == max_ctx_size) || not (mgr.handles c == 0)
    then some (false, mgr)
    else (elim (register_loop fuel mgr c) [ none ↦ none | some mgr' ↦ some (true, mgr') ])

-- `ctx == m_ctx_slot[hash]`
abbrev pub is_at : Option ℕ → ℕ → Bool
is_at none c = false
is_at (some d) c = d == c

pub retire_context : ContextMgr → ℕ → Option ContextMgr
retire_context mgr c =
    let handle = mgr.handles c in
    if handle == 0
    then some mgr
    else if is_at (mgr.ctx_slot (hash_of mgr.slot_cap handle)) c
    then some (record mgr {
      ctx_slot = put_slot mgr.ctx_slot (hash_of mgr.slot_cap handle) none;
      ctx_size = sub32 mgr.ctx_size 1;
      handles = put_handle mgr.handles c 0;
    })
    else none

pub grab_context : ContextMgr → ℕ → Option ℕ
grab_context mgr handle = elim (mgr.ctx_slot (hash_of mgr.slot_cap handle)) [
  | none ↦ none
  | some c ↦ if mgr.handles c == handle then some c else none
]
