-- ===== src/WorkerMgr/Pool/Wakeup.antt =====
-- No wakeup is lost: a thread that waits in vain has nothing to do.
use node_lua.Common.{
  ℕ, zero, suc, ◌+◌, ◌*◌, ◌<◌, ◌≡◌, refl, ap, List, [], ◌∷◌, ◌++◌, Bool, true, false, length, ltb,
  not, ◌&&◌, arith, if◌then◌else◌,
}
use node_lua.WorkerMgr.{push_context}
use node_lua.WorkerMgr.Pool.{
  Worker, waiting, Pool, worker_at, enqueue, is_nil, Found, process_step, hand_over, start_worker,
  stop_workers, owe_all, post, arrive, new_worker, worker_load_threshold, Action, hands_over,
  checks_load, posts, stops, goes, act, interleave, new_pool,
}
use node_lua.WorkerMgr.Pool.Sums.{Each, Each-update, Each-append, Each-at}
use node_lua.WorkerMgr.Pool.Posts.{
  needed, HasPost, AllHavePost, needed-one, enqueue-HasPost, go-AllHavePost,
}

process_step-AllHavePost :
    (p : Pool) (i : ℕ) (found : Found) → AllHavePost p → AllHavePost (process_step p i found)
unfolding process_step
process_step-AllHavePost p i found all =
    go-AllHavePost p i found (worker_at p.workers i).standing refl all

owe_all-HasPost : (ws : List Worker) → Each (HasPost true) (owe_all ws)
unfolding owe_all
owe_all-HasPost [] = tt
owe_all-HasPost (w ∷ ws) =
    (omega (arith, needed-one true (is_nil w.queue) w.standing), owe_all-HasPost ws)

module _ (most : ℕ) where
  pub act-AllHavePost : (p : Pool) (a : Action) → AllHavePost p → AllHavePost (act most p a)
  unfolding act hand_over start_worker stop_workers post arrive
  act-AllHavePost p (hands_over c) all =
      let j = push_context p.pushes (length p.workers) in
      Each-update (HasPost p.exiting) p.workers j (enqueue (c ∷ [])) all
        (enqueue-HasPost p.exiting c [] (worker_at p.workers j))
  act-AllHavePost p (checks_load n) all = added (
      not p.exiting
      && (ltb (length p.workers) most && ltb (length p.workers * worker_load_threshold) n))
    where
      added :
          (b : Bool)
          → AllHavePost (if b then record p { workers = p.workers ++ (new_worker ∷ []) } else p)
      added true = Each-append (HasPost p.exiting) p.workers (new_worker ∷ []) all (omega arith, tt)
      added false = all
  act-AllHavePost p stops all = stopped p.exiting
    where
      stopped :
          (b : Bool)
          → AllHavePost (if b then p else record p { exiting = true; workers = owe_all p.workers })
      stopped true = all
      stopped false = owe_all-HasPost p.workers
  act-AllHavePost p (posts i) all =
      Each-update (HasPost p.exiting) p.workers i (λ w. arrive w w.due) all
        (delivered (worker_at p.workers i) (worker_at p.workers i).due refl)
    where
      delivered :
          (w : Worker) (n : ℕ) → w.due ≡ n → HasPost p.exiting w → HasPost p.exiting (arrive w n)
      delivered w zero e has = has
      delivered w (suc n) e has = omega (arith, has, e)
  act-AllHavePost p (goes i found) all = process_step-AllHavePost p i found all

  pub interleave-AllHavePost :
      (p : Pool) (actions : List Action) → AllHavePost p → AllHavePost (interleave most p actions)
  unfolding interleave
  interleave-AllHavePost p [] all = all
  interleave-AllHavePost p (a ∷ rest) all =
      interleave-AllHavePost (act most p a) rest (act-AllHavePost p a all)

  -- After any interleaving from the pool as constructed, a thread that waits while its semaphore is
  -- zero and no post is on its way has an empty queue, and the pool is not to exit.
  pub waits-idle :
      (actions : List Action) (i : ℕ)
      → let p = interleave most new_pool actions in
        i < length p.workers
        → (worker_at p.workers i).standing ≡ waiting
        → (worker_at p.workers i).posted + (worker_at p.workers i).due ≡ 0
        → ((worker_at p.workers i).queue ≡ []) × (p.exiting ≡ false)
  waits-idle actions i lt at none_due =
      let p = interleave most new_pool actions in
      let w = worker_at p.workers i in
      empty_idle p.exiting w.queue (
        omega (
          arith,
          none_due,
          ap (needed p.exiting (is_nil w.queue)) at,
          Each-at (HasPost p.exiting) p.workers i (interleave-AllHavePost new_pool actions tt) lt,
        ))
    where
      empty_idle :
          (b : Bool) (q : List ℕ) → needed b (is_nil q) waiting ≡ 0 → (q ≡ []) × (b ≡ false)
      empty_idle true q e = absurd (omega (arith, e))
      empty_idle false [] e = (refl, refl)
      empty_idle false (c ∷ cs) e = absurd (omega (arith, e))
