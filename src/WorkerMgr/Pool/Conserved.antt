-- ===== src/WorkerMgr/Pool/Conserved.antt =====
-- No context is lost or served twice, whatever the interleaving.
use native.Mathlib.Decide.{dec_lt}
use native.Mathlib.Nat.{mod-lt}
use node_lua.Common.{
  ℕ, zero, suc, ◌+◌, ◌*◌, ◌%◌, ◌<◌, ◌≡◌, refl, ap, List, [], ◌∷◌, ◌++◌, Bool, true, false, length,
  ltb, not, ◌&&◌, arith, if◌then◌else◌,
}
use node_lua.WorkerMgr.{push_context}
use node_lua.WorkerMgr.Pool.{
  Worker, Pool, worker_at, Found, process_step, hand_over, start_worker, stop_workers, owe_all,
  post, arrive, new_worker, worker_load_threshold, Action, hands_over, checks_load, posts, stops,
  goes, act, interleave,
}
use node_lua.WorkerMgr.Pool.Sums.{sum_of, sum_of-append, sum_of-update_same, worker_at-beyond}
use node_lua.WorkerMgr.Pool.Lengths.{act-length}
use node_lua.WorkerMgr.Pool.Weights.{total, total-append, kept, weigh, go-weigh, sum_of-enqueue}

module _ (f : ℕ → ℕ) where
  process_step-weigh :
      (p : Pool) (i : ℕ) (found : Found) → weigh f (process_step p i found) ≡ weigh f p
  unfolding process_step
  process_step-weigh p i found = elim (dec_lt i (length p.workers)) [
    | yes lt ↦ go-weigh f p i found (worker_at p.workers i).standing lt refl
    | no ge ↦ rw (worker_at-beyond p.workers i (omega (arith, ge))) refl
  ]

  hand_over-weigh :
      (p : Pool) (c : ℕ) → 0 < length p.workers → weigh f (hand_over p c) ≡ weigh f p + f c
  unfolding hand_over push_context
  hand_over-weigh p c some_worker = omega (
    arith,
    sum_of-enqueue f p.workers (p.pushes % length p.workers) (c ∷ []) (mod-lt p.pushes some_worker),
  )

  start_worker-weigh : (most : ℕ) (p : Pool) (n : ℕ) → weigh f (start_worker most p n) ≡ weigh f p
  unfolding start_worker
  start_worker-weigh most p n = added (
      not p.exiting
      && (ltb (length p.workers) most && ltb (length p.workers * worker_load_threshold) n))
    where
      added :
          (b : Bool)
          → weigh f (if b then record p { workers = p.workers ++ (new_worker ∷ []) } else p)
            ≡ weigh f p
      added true = omega (arith, sum_of-append (kept f) p.workers (new_worker ∷ []))
      added false = refl

  sum_of-owe_all : (ws : List Worker) → sum_of (kept f) (owe_all ws) ≡ sum_of (kept f) ws
  unfolding owe_all
  sum_of-owe_all [] = refl
  sum_of-owe_all (w ∷ ws) = ap (λ n. (kept f) w + n) (sum_of-owe_all ws)

  stop_workers-weigh : (p : Pool) → weigh f (stop_workers p) ≡ weigh f p
  unfolding stop_workers
  stop_workers-weigh p = stopped p.exiting
    where
      stopped :
          (b : Bool)
          → weigh f (if b then p else record p { exiting = true; workers = owe_all p.workers })
            ≡ weigh f p
      stopped true = refl
      stopped false = omega (arith, sum_of-owe_all p.workers)

  post-weigh : (p : Pool) (i : ℕ) → weigh f (post p i) ≡ weigh f p
  unfolding post arrive
  post-weigh p i =
      ap (λ n. n + total f p.released)
        (sum_of-update_same (kept f) p.workers i (λ w. arrive w w.due) (λ w. delivered w w.due))
    where
      delivered : (w : Worker) (n : ℕ) → (kept f) (arrive w n) ≡ (kept f) w
      delivered w zero = refl
      delivered w (suc n) = refl

-- The contexts that an interleaving hands over.
abbrev pub handed_by : Action → List ℕ
handed_by (hands_over c) = c ∷ []
handed_by _ = []

abbrev pub handed : List Action → List ℕ
handed [] = []
handed (a ∷ rest) = handed_by a ++ handed rest

module _ (most : ℕ) (f : ℕ → ℕ) where
  act-weigh :
      (p : Pool) (a : Action)
      → 0 < length p.workers
      → weigh f (act most p a) ≡ weigh f p + total f (handed_by a)
  unfolding act
  act-weigh p (hands_over c) lt = omega (arith, hand_over-weigh f p c lt)
  act-weigh p (checks_load n) lt = omega (arith, start_worker-weigh f most p n)
  act-weigh p stops lt = omega (arith, stop_workers-weigh f p)
  act-weigh p (posts i) lt = omega (arith, post-weigh f p i)
  act-weigh p (goes i found) lt = omega (arith, process_step-weigh f p i found)

  -- From any pool with a worker, for every weight of contexts and every interleaving of
  -- `push_context`, `check_load`, `stop`, arriving posts and steps of the workers' threads: the weights of
  -- the contexts in run queues, those that threads have in hand and those that were released, a
  -- context counted as often as it is there, are together what they were at first and the weights
  -- of the contexts that were handed over.
  pub interleave-weigh :
      (p : Pool) (actions : List Action)
      → 0 < length p.workers
      → weigh f (interleave most p actions) ≡ weigh f p + total f (handed actions)
  unfolding interleave
  interleave-weigh p [] lt = omega arith
  interleave-weigh p (a ∷ rest) lt = omega (
    arith,
    interleave-weigh (act most p a) rest (omega (arith, act-length most p a)),
    act-weigh p a lt,
    total-append f (handed_by a) (handed rest),
  )
