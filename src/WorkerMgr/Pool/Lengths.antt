-- ===== src/WorkerMgr/Pool/Lengths.antt =====
-- Workers are never removed, and after `stop` none is added.
use node_lua.Common.{
  ℕ, zero, suc, ◌+◌, ◌*◌, ◌<◌, ◌≤◌, ◌≡◌, refl, ap, ◌∙◌, List, [], ◌∷◌, ◌++◌, Bool, true, false,
  length, length-append, ltb, not, ◌&&◌, ◌==◌, take, drop, arith, lt→ltb, if◌then◌else◌,
}
use node_lua.WorkerMgr.{push_context}
use node_lua.WorkerMgr.Pool.{
  Worker, Place, looping, taking, waiting, left, scanning, halving, moving, running, putting, Pool,
  worker_at, update, set_place, set_queue, enqueue, half_length, Found, go_to, take_one, take_half,
  push_stolen, wait_on, target, go, process_step, hand_over, start_worker, stop_workers, owe_all,
  post, arrive, new_worker, worker_load_threshold, Action, hands_over, checks_load, posts, stops,
  goes, act, new_pool,
}
use node_lua.WorkerMgr.Pool.Sums.{length-update}

-- The number of workers and the flag of a pool, which steps leave.
abbrev pub shape : Pool → ℕ × Bool
shape p = (length p.workers, p.exiting)

go_to-shape : (p : Pool) (i : ℕ) (at : Place) → shape (go_to p i at) ≡ shape p
unfolding go_to
go_to-shape p i at = ap (λ n. (n, p.exiting)) (length-update p.workers i (set_place at))

two_steps-shape :
    (p : Pool) (i j : ℕ) (g : Worker → Worker) (at : Place)
    → shape (go_to (record p { workers = update p.workers j g }) i at) ≡ shape p
two_steps-shape p i j g at =
    go_to-shape (record p { workers = update p.workers j g }) i at
    ∙ ap (λ n. (n, p.exiting)) (length-update p.workers j g)

go-shape :
    (p : Pool) (i : ℕ) (found : Found) (w : Worker) (at : Place)
    → shape (go p i found w at) ≡ shape p
unfolding go take_one take_half push_stolen wait_on go_to
go-shape p i found w looping = go_to-shape p i (if p.exiting then left else taking)
go-shape p i found w taking = taken w.queue
  where
    taken : (cs : List ℕ) → shape (take_one p i cs) ≡ shape p
    taken [] = go_to-shape p i (scanning 0)
    taken (c ∷ cs) = two_steps-shape p i i (set_queue cs) (running c)
go-shape p i found w (scanning j) = scanned (ltb j (length p.workers))
  where
    next : Place
    next =
        if not (j == i) && ltb 1 (length (worker_at p.workers j).queue)
        then halving j
        else scanning (j + 1)

    scanned : (b : Bool) → shape (if b then go_to p i next else go_to p i waiting) ≡ shape p
    scanned true = go_to-shape p i next
    scanned false = go_to-shape p i waiting
go-shape p i found w (halving j) =
    let queue = (worker_at p.workers j).queue in
    halved (take (half_length queue) queue) (drop (half_length queue) queue)
  where
    halved : (cs rest : List ℕ) → shape (take_half p i j cs rest) ≡ shape p
    halved [] rest = go_to-shape p i (scanning (j + 1))
    halved (c ∷ cs) rest = two_steps-shape p i j (set_queue rest) (moving c cs)
go-shape p i found w waiting = waited w.posted
  where
    waited : (n : ℕ) → shape (wait_on p i n) ≡ shape p
    waited zero = refl
    waited (suc n) =
        ap (λ m. (m, p.exiting))
          (length-update p.workers i (λ v. record v { posted = n; standing = looping }))
go-shape p i found w (moving c []) = go_to-shape p i (running c)
go-shape p i found w (moving c (d ∷ cs)) = two_steps-shape p i i (enqueue (d ∷ cs)) (running c)
go-shape p i found w (running c) = ran found.more
  where
    ran :
        (b : Bool)
        → shape (
            if b
            then go_to p i (putting c)
            else record (go_to p i looping) { released = c ∷ p.released })
          ≡ shape p
    ran true = go_to-shape p i (putting c)
    ran false = go_to-shape p i looping
go-shape p i found w (putting c) = two_steps-shape p i (target p i found) (enqueue (c ∷ [])) looping
go-shape p i found w left = refl

pub process_step-shape :
    (p : Pool) (i : ℕ) (found : Found) → shape (process_step p i found) ≡ shape p
unfolding process_step
process_step-shape p i found =
    go-shape p i found (worker_at p.workers i) (worker_at p.workers i).standing

length-owe_all : (ws : List Worker) → length (owe_all ws) ≡ length ws
unfolding owe_all
length-owe_all [] = refl
length-owe_all (w ∷ ws) = ap suc (length-owe_all ws)

module _ (most : ℕ) where
  pub act-length : (p : Pool) (a : Action) → length p.workers ≤ length (act most p a).workers
  unfolding act hand_over start_worker stop_workers post
  act-length p (hands_over c) =
      omega (
        arith,
        length-update p.workers (push_context p.pushes (length p.workers)) (enqueue (c ∷ [])),
      )
  act-length p (checks_load n) = added (
      not p.exiting
      && (ltb (length p.workers) most && ltb (length p.workers * worker_load_threshold) n))
    where
      added :
          (b : Bool)
          → length p.workers
            ≤ length
                (if b then record p { workers = p.workers ++ (new_worker ∷ []) } else p).workers
      added true = omega (arith, length-append p.workers (new_worker ∷ []))
      added false = omega arith
  act-length p stops = stopped p.exiting
    where
      stopped :
          (b : Bool)
          → length p.workers
            ≤ length
                (if b then p else record p { exiting = true; workers = owe_all p.workers }).workers
      stopped true = omega arith
      stopped false = omega (arith, length-owe_all p.workers)
  act-length p (posts i) = omega (arith, length-update p.workers i (λ w. arrive w w.due))
  act-length p (goes i found) = omega (arith, ap (λ s. s.0) (process_step-shape p i found))

  -- After `stop` the pool stays as it is in this.
  pub act-stopped : (p : Pool) (a : Action) → p.exiting ≡ true → shape (act most p a) ≡ shape p
  unfolding act hand_over start_worker stop_workers post
  act-stopped p (hands_over c) e =
      ap (λ n. (n, p.exiting))
        (length-update p.workers (push_context p.pushes (length p.workers)) (enqueue (c ∷ [])))
  act-stopped p (checks_load n) e = rw e refl
  act-stopped p stops e = rw e refl
  act-stopped p (posts i) e =
      ap (λ n. (n, p.exiting)) (length-update p.workers i (λ w. arrive w w.due))
  act-stopped p (goes i found) e = process_step-shape p i found

-- `start` makes one worker, where one is allowed.
pub start-one :
    (most : ℕ)
    → 0 < most
    → start_worker most new_pool 1 ≡ record new_pool { workers = new_worker ∷ [] }
unfolding start_worker
start-one most lt = rw (lt→ltb 0 most lt) refl
