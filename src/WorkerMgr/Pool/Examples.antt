-- ===== src/WorkerMgr/Pool/Examples.antt =====
-- An interleaving on which the theorems are applied.
use node_lua.Common.{ℕ, zero, suc, ◌+◌, ◌≡◌, refl, List, [], ◌∷◌, ◌++◌, false, arith}
use node_lua.WorkerMgr.Pool.{
  left, running, worker_at, new_pool, Found, Action, hands_over, checks_load, posts, stops, goes,
  interleave,
}
use node_lua.WorkerMgr.Pool.Conserved.{handed, interleave-weigh}
use node_lua.WorkerMgr.Pool.Weights.{total, weigh}
use node_lua.WorkerMgr.Pool.Wakeup.{waits-idle}
use node_lua.WorkerMgr.Pool.Stop.{stop_workers-left}
use node_lua.WorkerMgr.Pool.Ranks.{place_at}

-- A thread that finds no more messages, and empty queues.
abbrev found : Found
found = record { more = false; own = 0; seen = λ i. 0 }

-- A worker is added, two contexts come, the first is served, and the pool is stopped.
abbrev busy : List Action
busy =
    checks_load 3
    ∷ hands_over 7
    ∷ hands_over 8
    ∷ hands_over 9
    ∷ posts 0
    ∷ goes 0 found
    ∷ goes 0 found
    ∷ goes 0 found
    ∷ stops
    ∷ goes 0 found
    ∷ []

interleave-weigh_example :
    weigh (λ c. c) (interleave 4 (interleave 4 new_pool (checks_load 1 ∷ [])) busy)
    ≡ weigh (λ c. c) (interleave 4 new_pool (checks_load 1 ∷ [])) + total (λ c. c) (handed busy)
unfolding interleave
interleave-weigh_example =
    interleave-weigh 4 (λ c. c) (interleave 4 new_pool (checks_load 1 ∷ [])) busy (omega arith)

-- A worker that found no context waits.
abbrev to_wait : List Action
to_wait = checks_load 1 ∷ goes 0 found ∷ goes 0 found ∷ goes 0 found ∷ goes 0 found ∷ []

waits-idle_example :
    ((worker_at (interleave 4 new_pool to_wait).workers 0).queue ≡ [])
    × ((interleave 4 new_pool to_wait).exiting ≡ false)
unfolding interleave
waits-idle_example = waits-idle 4 to_wait 0 (omega arith) refl refl

-- It is woken by `stop`.
abbrev own : ℕ → List Action
own zero = []
own (suc n) = goes 0 found ∷ own n

stop_workers-left_example :
    place_at (interleave 4 (interleave 4 new_pool (to_wait ++ (stops ∷ posts 0 ∷ []))) (own 11)) 0
    ≡ left
unfolding interleave
stop_workers-left_example =
    stop_workers-left 4 (to_wait ++ (stops ∷ posts 0 ∷ [])) (own 11) 0 refl (omega arith) refl
      (omega arith)

-- The second worker takes the first half of the queue of the first, and has one of the two in hand.
steal_run :
    place_at
      (interleave 4 new_pool (
        checks_load 1
        ∷ hands_over 1
        ∷ hands_over 2
        ∷ hands_over 3
        ∷ hands_over 4
        ∷ checks_load 3
        ∷ goes 1 found
        ∷ goes 1 found
        ∷ goes 1 found
        ∷ goes 1 found
        ∷ goes 1 found
        ∷ []))
      1
    ≡ running 1
unfolding interleave
steal_run = refl
