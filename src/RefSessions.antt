-- ===== src/RefSessions.antt =====
-- src/ref_sessions.h and src/ref_sessions.cpp: the coroutines of a Lua context that wait for one
-- thing, and the callback that does. A reference is the bit pattern of its `int32_t`. The calls
-- into the context are parameters over its state `W`: `wake` is `wakeup_ref_session`, which runs a
-- coroutine that may come back to these sessions, so it takes and returns them too. A computation
-- that ends in `none` reads the front of an empty vector.
pub mod Wakeup
mod Examples
use node_lua.Common.{
  ℕ, zero, suc, ◌-◌, ◌^◌, List, [], ◌∷◌, ◌++◌, Option, none, some, Bool, true, false, not, ◌&&◌,
  ◌==◌, if◌then◌else◌, length,
}
use node_lua.Common.Words.{add32}

abbrev pub lua_refnil : ℕ
lua_refnil = 2 ^ 32 - 1

pub record RefSessions : Type 0 where
  pub nonblocking_ref : ℕ
  pub blocking_sessions : List ℕ

-- ref_sessions_t()
abbrev pub init : RefSessions
init = record { nonblocking_ref = lua_refnil; blocking_sessions = [] }

abbrev empty : List ℕ → Bool
empty [] = true
empty (x ∷ xs) = false

abbrev pub is_empty : RefSessions → Bool
is_empty s = (s.nonblocking_ref == lua_refnil) && empty s.blocking_sessions

-- The vector without the first entry that is `session`, if there is one.
pub erase : ℕ → List ℕ → Option (List ℕ)
erase session [] = none
erase session (x ∷ xs) =
    if session == x
    then some xs
    else elim (erase session xs) [ none ↦ none | some rest ↦ some (x ∷ rest) ]

module _ {W : Type 0} where
  -- `lua_ref_callback` makes a reference to a callback, given the old one.
  unfoldable pub make_nonblocking_callback :
      (ℕ → W → ℕ × W) → RefSessions → W → Bool × RefSessions × W
  make_nonblocking_callback lua_ref_callback s w =
      let (ref, w') = lua_ref_callback s.nonblocking_ref w in
      (s.nonblocking_ref == lua_refnil, record s { nonblocking_ref = ref }, w')

  unfoldable pub free_nonblocking_callback : (ℕ → W → W) → RefSessions → W → RefSessions × W
  free_nonblocking_callback lua_free_ref_session s w =
      if not (s.nonblocking_ref == lua_refnil)
      then (record s { nonblocking_ref = lua_refnil }, lua_free_ref_session s.nonblocking_ref w)
      else (s, w)

  -- `lua_ref_yield_coroutine` makes the session of the coroutine that is about to wait.
  unfoldable pub push_blocking : (W → ℕ × W) → RefSessions → W → ℕ × RefSessions × W
  push_blocking lua_ref_yield_coroutine s w =
      let (session, w') = lua_ref_yield_coroutine w in
      (session, record s { blocking_sessions = s.blocking_sessions ++ (session ∷ []) }, w')

module _ {W : Type 0} (wake : ℕ → Bool → RefSessions → W → ℕ × RefSessions × W) where
  -- The loop of `wakeup_all_blocking` with `rounds` left and `size` coroutines resumed so far.
  pub wake_rounds : ℕ → ℕ → RefSessions → W → Option (ℕ × RefSessions × W)
  wake_rounds zero size s w = some (size, s, w)
  wake_rounds (suc rounds) size s w = elim s.blocking_sessions [
    | [] ↦ none
    | session ∷ rest ↦
        let (woken, s', w') = wake session false (record s { blocking_sessions = rest }) w in
        wake_rounds rounds (if woken == 0 then size else add32 size 1) s' w'
  ]

  pub wakeup_all_blocking : RefSessions → W → Option (ℕ × RefSessions × W)
  wakeup_all_blocking s w = wake_rounds (length s.blocking_sessions) 0 s w

  pub wakeup_one_blocking : RefSessions → W → ℕ × RefSessions × W
  wakeup_one_blocking s w = elim s.blocking_sessions [
    | [] ↦ (0, s, w)
    | session ∷ rest ↦ wake session false (record s { blocking_sessions = rest }) w
  ]

  pub wakeup_noneblocking : Bool → RefSessions → W → ℕ × RefSessions × W
  wakeup_noneblocking false s w = wake s.nonblocking_ref false s w
  wakeup_noneblocking true s w =
      wake s.nonblocking_ref true (record s { nonblocking_ref = lua_refnil }) w

  -- `session` is `message.m_session`.
  pub wakeup_one_fixed : ℕ → Bool → RefSessions → W → ℕ × RefSessions × W
  unfolding wakeup_noneblocking
  wakeup_one_fixed session free_callback s w =
      if not (session == s.nonblocking_ref)
      then (elim (erase session s.blocking_sessions) [
        | none ↦ (0, s, w)
        | some rest ↦ wake session false (record s { blocking_sessions = rest }) w
      ])
      else wakeup_noneblocking free_callback s w

  -- Whether a coroutine was woken, or else the callback.
  pub wakeup_once : Bool → RefSessions → W → Bool × RefSessions × W
  unfolding wakeup_one_blocking wakeup_noneblocking
  wakeup_once free_callback s w =
      let (woken, s', w') = wakeup_one_blocking s w in
      let (called, s₂, w₂) = wakeup_noneblocking free_callback s' w' in
      if not (woken == 0) then (true, s', w') else (not (called == 0), s₂, w₂)

  pub wakeup_all : Bool → RefSessions → W → Option (RefSessions × W)
  unfolding wakeup_all_blocking wakeup_noneblocking
  wakeup_all free_callback s w = elim (wakeup_all_blocking s w) [
    | none ↦ none
    | some (size, s', w') ↦
        let (called, s₂, w₂) = wakeup_noneblocking free_callback s' w' in some (s₂, w₂)
  ]
