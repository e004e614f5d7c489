-- ===== src/WorkerMgr.antt =====
-- src/worker_mgr.cpp: how a context gets a worker. A worker is its index; `lengths` are the values
-- that `get_context_length()` returns for the workers in order, each the bit pattern of an
-- `int32_t`. They are read without a lock, so the length of the running worker that is read first
-- may differ from the one read again in the loop.
pub mod Least
pub mod Pool
mod Examples
use node_lua.Common.{
  ℕ, zero, suc, ◌+◌, ◌-◌, ◌%◌, ◌^◌, List, [], ◌∷◌, Bool, true, false, not, ◌&&◌, ◌||◌, ltb, leb,
  ◌==◌, if◌then◌else◌,
}
use node_lua.Common.Words.{add32}

-- `length <= 0` of an `int32_t`.
abbrev pub not_positive : ℕ → Bool
not_positive length = (length == 0) || leb (2 ^ 31) length

-- The loop of `repush_context` from worker `i`.
pub least_loaded : ℕ → ℕ → ℕ → List ℕ → ℕ
least_loaded min_index min_length i [] = min_index
least_loaded min_index min_length i (length ∷ lengths) =
    let closer = least_loaded i length (i + 1) lengths in
    let same = least_loaded min_index min_length (i + 1) lengths in
    if length == 0 then i else if ltb length min_length then closer else same

-- repush_context: the worker that gets the context.
pub repush_context : ℕ → ℕ → List ℕ → ℕ
unfolding least_loaded
repush_context running own lengths =
    if not_positive own then running else least_loaded 0 (2 ^ 32 - 1) 0 lengths

-- push_context: the worker that gets the context, by the counter of pushes before this one.
unfoldable pub push_context : ℕ → ℕ → ℕ
push_context push_index worker_num = push_index % worker_num
