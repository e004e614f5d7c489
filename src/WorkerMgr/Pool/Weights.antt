-- ===== src/WorkerMgr/Pool/Weights.antt =====
-- The contexts that a pool has, counted by a weight, through the steps of a thread.
use node_lua.Common.{
  ℕ, zero, suc, ◌+◌, ◌<◌, ◌≡◌, refl, ap, sym, List, [], ◌∷◌, ◌++◌, Bool, true, false, length, ltb,
  not, ◌&&◌, ◌==◌, take, drop, take-append-drop, arith, if◌then◌else◌, Bool-cases, inl, inr,
}
use node_lua.WorkerMgr.Pool.{
  Worker, Place, looping, taking, waiting, left, scanning, halving, moving, running, putting, Pool,
  worker_at, update, set_place, set_queue, enqueue, half_length, Found, go_to, take_one, take_half,
  push_stolen, wait_on, target, go,
}
use node_lua.WorkerMgr.Pool.Sums.{sum_of, sum_of-update, length-update, field-update}
use node_lua.WorkerMgr.Pool.Target.{target-bound, there}

module _ (f : ℕ → ℕ) where
  abbrev pub total : List ℕ → ℕ
  total [] = 0
  total (c ∷ cs) = f c + total cs

  pub total-append : (xs ys : List ℕ) → total (xs ++ ys) ≡ total xs + total ys
  total-append [] ys = omega arith
  total-append (x ∷ xs) ys = omega (arith, total-append xs ys)

  -- What the thread of a worker has outside its queue.
  abbrev pub held : Place → ℕ
  held looping = 0
  held taking = 0
  held waiting = 0
  held left = 0
  held (scanning j) = 0
  held (halving j) = 0
  held (moving c cs) = f c + total cs
  held (running c) = f c
  held (putting c) = f c

  abbrev pub kept : Worker → ℕ
  kept w = total w.queue + held w.standing

  -- All contexts that were handed over.
  abbrev pub weigh : Pool → ℕ
  weigh p = sum_of kept p.workers + total p.released

  sum_of-set_place :
      (ws : List Worker) (i : ℕ) (at : Place)
      → i < length ws
      → sum_of kept (update ws i (set_place at)) + held (worker_at ws i).standing
        ≡ sum_of kept ws + held at
  sum_of-set_place ws i at lt = omega (arith, sum_of-update kept ws i (set_place at) lt)

  sum_of-set_queue :
      (ws : List Worker) (i : ℕ) (cs : List ℕ)
      → i < length ws
      → sum_of kept (update ws i (set_queue cs)) + total (worker_at ws i).queue
        ≡ sum_of kept ws + total cs
  sum_of-set_queue ws i cs lt = omega (arith, sum_of-update kept ws i (set_queue cs) lt)

  pub sum_of-enqueue :
      (ws : List Worker) (i : ℕ) (cs : List ℕ)
      → i < length ws
      → sum_of kept (update ws i (enqueue cs)) ≡ sum_of kept ws + total cs
  sum_of-enqueue ws i cs lt =
      omega (arith, sum_of-update kept ws i (enqueue cs) lt, total-append (worker_at ws i).queue cs)

  go_to-weigh :
      (p : Pool) (i : ℕ) (at : Place)
      → i < length p.workers
      → weigh (go_to p i at) + held (worker_at p.workers i).standing ≡ weigh p + held at
  unfolding go_to
  go_to-weigh p i at lt = omega (arith, sum_of-set_place p.workers i at lt)

  -- A step between places where the thread has nothing.
  go_to-idle :
      (p : Pool) (i : ℕ) (at : Place)
      → i < length p.workers
      → held (worker_at p.workers i).standing ≡ 0
      → held at ≡ 0
      → weigh (go_to p i at) ≡ weigh p
  go_to-idle p i at lt before after = omega (arith, go_to-weigh p i at lt, before, after)

  held-choice : (b : Bool) (x y : Place) → held x ≡ 0 → held y ≡ 0 → held (if b then x else y) ≡ 0
  held-choice true x y e e' = e
  held-choice false x y e e' = e'

  -- The queue of one worker changes, and then the place of the thread.
  two_steps :
      (p : Pool) (i j : ℕ) (g : Worker → Worker) (at : Place)
      → i < length p.workers
      → ((w : Worker) → (g w).standing ≡ w.standing)
      → weigh (go_to (record p { workers = update p.workers j g }) i at)
          + held (worker_at p.workers i).standing
        ≡ sum_of kept (update p.workers j g) + total p.released + held at
  two_steps p i j g at lt same = omega (
    arith,
    go_to-weigh (record p { workers = update p.workers j g }) i at
        (omega (arith, lt, length-update p.workers j g)),
    ap held (field-update (λ w. w.standing) p.workers i j g same),
  )

  take_one-weigh :
      (p : Pool) (i : ℕ) (cs : List ℕ)
      → i < length p.workers
      → (worker_at p.workers i).standing ≡ taking
      → (worker_at p.workers i).queue ≡ cs
      → weigh (take_one p i cs) ≡ weigh p
  unfolding take_one
  take_one-weigh p i [] lt e q = go_to-idle p i (scanning 0) lt (ap held e) refl
  take_one-weigh p i (c ∷ cs) lt e q = omega (
    arith,
    two_steps p i i (set_queue cs) (running c) lt (λ w. refl),
    sum_of-set_queue p.workers i cs lt,
    ap held e,
    ap total q,
  )

  take_half-weigh :
      (p : Pool) (i j : ℕ) (cs rest : List ℕ)
      → i < length p.workers
      → (worker_at p.workers i).standing ≡ halving j
      → (worker_at p.workers j).queue ≡ cs ++ rest
      → weigh (take_half p i j cs rest) ≡ weigh p
  unfolding take_half
  take_half-weigh p i j [] rest lt e q = go_to-idle p i (scanning (j + 1)) lt (ap held e) refl
  take_half-weigh p i j (c ∷ cs) rest lt e q = omega (
    arith,
    two_steps p i j (set_queue rest) (moving c cs) lt (λ w. refl),
    sum_of-set_queue p.workers j rest (there p.workers j c (cs ++ rest) q),
    ap held e,
    ap total q,
    total-append (c ∷ cs) rest,
  )

  wait_on-weigh :
      (p : Pool) (i n : ℕ)
      → i < length p.workers
      → (worker_at p.workers i).standing ≡ waiting
      → weigh (wait_on p i n) ≡ weigh p
  unfolding wait_on
  wait_on-weigh p i zero lt e = refl
  wait_on-weigh p i (suc n) lt e = omega (
    arith,
    sum_of-update kept p.workers i (λ w. record w { posted = n; standing = looping }) lt,
    ap held e,
  )

  push_stolen-weigh :
      (p : Pool) (i c : ℕ) (cs : List ℕ)
      → i < length p.workers
      → (worker_at p.workers i).standing ≡ moving c cs
      → weigh (go_to (push_stolen p i cs) i (running c)) ≡ weigh p
  unfolding push_stolen
  push_stolen-weigh p i c [] lt e = omega (arith, go_to-weigh p i (running c) lt, ap held e)
  push_stolen-weigh p i c (d ∷ cs) lt e = omega (
    arith,
    two_steps p i i (enqueue (d ∷ cs)) (running c) lt (λ w. refl),
    sum_of-enqueue p.workers i (d ∷ cs) lt,
    ap held e,
  )

  put-weigh :
      (p : Pool) (i j c : ℕ)
      → i < length p.workers
      → j < length p.workers
      → (worker_at p.workers i).standing ≡ putting c
      → weigh (go_to (record p { workers = update p.workers j (enqueue (c ∷ [])) }) i looping)
        ≡ weigh p
  put-weigh p i j c lt lt' e = omega (
    arith,
    two_steps p i j (enqueue (c ∷ [])) looping lt (λ w. refl),
    sum_of-enqueue p.workers j (c ∷ []) lt',
    ap held e,
  )

  released-go_to :
      (p : Pool) (i : ℕ) (at : Place) → total (go_to p i at).released ≡ total p.released
  unfolding go_to
  released-go_to p i at = refl

  pub go-weigh :
      (p : Pool) (i : ℕ) (found : Found) (at : Place)
      → i < length p.workers
      → (worker_at p.workers i).standing ≡ at
      → weigh (go p i found (worker_at p.workers i) at) ≡ weigh p
  unfolding go
  go-weigh p i found looping lt e =
      go_to-idle p i (if p.exiting then left else taking) lt (ap held e)
        (held-choice p.exiting left taking refl refl)
  go-weigh p i found taking lt e = take_one-weigh p i (worker_at p.workers i).queue lt e refl
  go-weigh p i found (scanning j) lt e = elim (Bool-cases (ltb j (length p.workers))) [
    | inl more ↦ rw more (
        go_to-idle p i _ lt (ap held e) (
          held-choice (not (j == i) && ltb 1 (length (worker_at p.workers j).queue)) (halving j)
            (scanning (j + 1)) refl refl))
    | inr over ↦ rw over (go_to-idle p i waiting lt (ap held e) refl)
  ]
  go-weigh p i found (halving j) lt e =
      let queue = (worker_at p.workers j).queue in
      take_half-weigh p i j (take (half_length queue) queue) (drop (half_length queue) queue) lt e
        (sym (take-append-drop (half_length queue) queue))
  go-weigh p i found waiting lt e = wait_on-weigh p i (worker_at p.workers i).posted lt e
  go-weigh p i found (moving c cs) lt e = push_stolen-weigh p i c cs lt e
  go-weigh p i found (running c) lt e = elim (Bool-cases found.more) [
    | inl more ↦ rw more (omega (arith, go_to-weigh p i (putting c) lt, ap held e))
    | inr done ↦
        rw done (omega (arith, go_to-weigh p i looping lt, ap held e, released-go_to p i looping))
  ]
  go-weigh p i found (putting c) lt e =
      put-weigh p i (target p i found) c lt (target-bound p i found lt) e
  go-weigh p i found left lt e = refl
