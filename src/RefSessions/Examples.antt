-- ===== src/RefSessions/Examples.antt =====
-- Three coroutines wait; the first waits again when it is resumed.
use node_lua.Common.{
  Apart, ℕ, ◌≡◌, refl, List, [], ◌∷◌, ◌++◌, some, Bool, true, false, ◌==◌, if◌then◌else◌, arith,
}
use node_lua.RefSessions.{
  RefSessions, lua_refnil, init, is_empty, make_nonblocking_callback, free_nonblocking_callback,
  push_blocking, wakeup_all_blocking, wakeup_one_blocking, wakeup_one_fixed, wakeup_once,
  wakeup_all,
}
use node_lua.RefSessions.Wakeup.{Resumes, Woken, wakeup_all_blocking-Woken, wakeup_one_fixed_lem}

-- The sessions resumed so far and those that joined since.
abbrev World : Type 0
World = List ℕ × List ℕ

abbrev log : World → List ℕ
log w = w.0

abbrev joined : World → List ℕ
joined w = w.1

-- Coroutine 5 waits again, as 9.
abbrev again : ℕ → List ℕ
again session = if session == 5 then 9 ∷ [] else []

abbrev wake : ℕ → Bool → RefSessions → World → ℕ × RefSessions × World
wake session free_callback s (l, j) = (
  1,
  record s { blocking_sessions = s.blocking_sessions ++ again session },
  (l ++ (session ∷ []), j ++ again session),
)

wake-Resumes :
    (session : ℕ) (free_callback : Bool) (s : RefSessions) (w : World)
    → Resumes log joined session s w (wake session free_callback s w)
wake-Resumes session free_callback s w = record {
  more = again session;
  queued = refl;
  noted = refl;
  joins = refl;
}

abbrev three : RefSessions
three = record { nonblocking_ref = lua_refnil; blocking_sessions = 5 ∷ 6 ∷ 7 ∷ [] }

abbrev start : World
start = ([], [])

wakeup_all_blocking-Woken_example :
    Woken log joined (5 ∷ 6 ∷ 7 ∷ []) [] 0 start (wakeup_all_blocking wake three start)
wakeup_all_blocking-Woken_example =
    wakeup_all_blocking-Woken wake log joined wake-Resumes three start (omega arith)

wakeup_one_fixed_lem_example :
    ((front back : List ℕ)
      → (5 ∷ 6 ∷ 7 ∷ []) ≡ front ++ (6 ∷ back)
      → Apart 6 front
      → wakeup_one_fixed wake 6 false three start
        ≡ wake 6 false (record three { blocking_sessions = front ++ back }) start)
    × (Apart 6 (5 ∷ 6 ∷ 7 ∷ []) → wakeup_one_fixed wake 6 false three start ≡ (0, three, start))
wakeup_one_fixed_lem_example = wakeup_one_fixed_lem wake 6 false three start (omega arith)

-- The one that waits again is left.
left_waiting :
    wakeup_all wake false three start
    ≡ some (
      (record { nonblocking_ref = lua_refnil; blocking_sessions = 9 ∷ [] }),
      (5 ∷ 6 ∷ 7 ∷ lua_refnil ∷ [], 9 ∷ []),
    )
unfolding wakeup_all node_lua.RefSessions.wake_rounds
left_waiting = refl

-- A wakeup of one that has nobody to resume goes to the callback.
callback_once : (wakeup_once wake true (record init { nonblocking_ref = 4 }) start).2.0 ≡ 4 ∷ []
unfolding wakeup_once
callback_once = refl
