-- ===== src/WorkerMgr/Pool/Stop.antt =====
-- After `stop` every thread comes to its end.
use native.Mathlib.Decide.{ℕ_discrete}
use node_lua.Common.{
  ℕ, zero, suc, ◌+◌, ◌*◌, ◌<◌, ◌≤◌, ◌≡◌, refl, ap, subst, ◌∙◌, List, [], ◌∷◌, Bool, true, length,
  ◌==◌, arith, if◌then◌else◌, eq→==, ne→==,
}
use node_lua.WorkerMgr.{push_context}
use node_lua.WorkerMgr.Pool.{
  Worker, Place, looping, taking, waiting, left, scanning, halving, moving, running, putting, Pool,
  worker_at, update, enqueue, is_nil, process_step, hand_over, start_worker, stop_workers, post,
  arrive, Action, hands_over, checks_load, posts, stops, goes, act, interleave, new_pool,
}
use node_lua.WorkerMgr.Pool.Sums.{field-update, Each-at}
use node_lua.WorkerMgr.Pool.Lengths.{act-stopped}
use node_lua.WorkerMgr.Pool.Others.{view, queue-view, process_step-view}
use node_lua.WorkerMgr.Pool.Posts.{needed, HasPost}
use node_lua.WorkerMgr.Pool.Wakeup.{interleave-AllHavePost}
use node_lua.WorkerMgr.Pool.Ranks.{rank, place_at, posted_at, NotBlocked, Nearer, go-Nearer}

-- Own steps in an interleaving.
abbrev pub own_step : ℕ → Action → ℕ
own_step i (goes k found) = if i == k then 1 else 0
own_step i _ = 0

abbrev pub own_steps : ℕ → List Action → ℕ
own_steps i [] = 0
own_steps i (a ∷ rest) = own_step i a + own_steps i rest

post-place : (p : Pool) (i k : ℕ) → place_at (post p k) i ≡ place_at p i
unfolding post arrive
post-place p i k =
    field-update (λ w. w.standing) p.workers i k (λ w. arrive w w.due) (λ w. delivered w w.due)
  where
    delivered : (w : Worker) (n : ℕ) → (arrive w n).standing ≡ w.standing
    delivered w zero = refl
    delivered w (suc n) = refl

post-posted :
    (ws : List Worker) (i k : ℕ)
    → (worker_at ws i).posted ≤ (worker_at (update ws k (λ w. arrive w w.due)) i).posted
unfolding arrive
post-posted [] i k = omega arith
post-posted (w ∷ ws) zero zero = delivered w w.due
  where
    delivered : (v : Worker) (n : ℕ) → v.posted ≤ (arrive v n).posted
    delivered v zero = omega arith
    delivered v (suc n) = omega arith
post-posted (w ∷ ws) zero (suc k) = omega arith
post-posted (w ∷ ws) (suc i) zero = omega arith
post-posted (w ∷ ws) (suc i) (suc k) = post-posted ws i k

rank-left : (n : ℕ) (at : Place) → rank n at ≤ 0 → at ≡ left
rank-left n left le = refl
rank-left n looping le = absurd (omega (arith, le))
rank-left n taking le = absurd (omega (arith, le))
rank-left n waiting le = absurd (omega (arith, le))
rank-left n (scanning j) le = absurd (omega (arith, le))
rank-left n (halving j) le = absurd (omega (arith, le))
rank-left n (moving c cs) le = absurd (omega (arith, le))
rank-left n (running c) le = absurd (omega (arith, le))
rank-left n (putting c) le = absurd (omega (arith, le))

rank-bound : (n : ℕ) (at : Place) → rank n at ≤ 9 + 2 * n
rank-bound n left = omega arith
rank-bound n looping = omega arith
rank-bound n taking = omega arith
rank-bound n waiting = omega arith
rank-bound n (scanning j) = omega arith
rank-bound n (halving j) = omega arith
rank-bound n (moving c cs) = omega arith
rank-bound n (running c) = omega arith
rank-bound n (putting c) = omega arith

needed-exiting : (empty : Bool) (at : Place) → needed true empty at ≡ needed true true at
needed-exiting empty left = refl
needed-exiting empty looping = refl
needed-exiting empty taking = refl
needed-exiting empty waiting = refl
needed-exiting empty (scanning j) = refl
needed-exiting empty (halving j) = refl
needed-exiting empty (moving c cs) = refl
needed-exiting empty (running c) = refl
needed-exiting empty (putting c) = refl

-- Nothing that others do holds a thread up.
unmoved :
    (n : ℕ) (p q : Pool) (i : ℕ)
    → view q i ≡ view p i
    → NotBlocked (place_at p i) (posted_at p i)
    → Nearer n 0 (place_at p i) q i
unmoved n p q i same ready = (
  omega (arith, ap (λ v. rank n v.0) same),
  omega (arith, ready, ap (λ v. needed true true v.0) same, ap (λ v. v.1) same),
)

module _ (most : ℕ) where
  act-Nearer :
      (p : Pool) (a : Action) (i : ℕ)
      → p.exiting ≡ true
      → i < length p.workers
      → NotBlocked (place_at p i) (posted_at p i)
      → Nearer (length p.workers) (own_step i a) (place_at p i) (act most p a) i
  unfolding act hand_over start_worker stop_workers post process_step arrive
  act-Nearer p (hands_over c) i out lt ready =
      unmoved (length p.workers) p (hand_over p c) i
        (queue-view p i (push_context p.pushes (length p.workers)) (enqueue (c ∷ [])) (λ w. refl)
          (λ w. refl))
        ready
  act-Nearer p (checks_load m) i out lt ready =
      unmoved (length p.workers) p (start_worker most p m) i (rw out refl) ready
  act-Nearer p stops i out lt ready =
      unmoved (length p.workers) p (stop_workers p) i (rw out refl) ready
  act-Nearer p (posts k) i out lt ready = (
    omega (arith, ap (rank (length p.workers)) (post-place p i k)),
    omega (arith, ready, ap (needed true true) (post-place p i k), post-posted p.workers i k),
  )
  act-Nearer p (goes k found) i out lt ready = elim (ℕ_discrete i k) [
    | yes same ↦ rw (eq→== i k same) (
        subst (λ m. Nearer (length p.workers) 1 (place_at p i) (process_step p m found) i) same
          (go-Nearer (length p.workers) p i found (place_at p i) refl out lt refl ready))
    | no other ↦ rw (ne→== i k other) (
        unmoved (length p.workers) p (process_step p k found) i
          (process_step-view i k other p found) ready)
  ]

  -- A pool that is to exit, and a thread that needs no post that has not arrived: in every interleaving
  -- with as many steps of the thread as `rank` says, it comes behind its loop.
  interleave-left :
      (p : Pool) (actions : List Action) (i : ℕ)
      → p.exiting ≡ true
      → i < length p.workers
      → NotBlocked (place_at p i) (posted_at p i)
      → rank (length p.workers) (place_at p i) ≤ own_steps i actions
      → place_at (interleave most p actions) i ≡ left
  unfolding interleave
  interleave-left p [] i out lt ready enough =
      rank-left (length p.workers) (place_at p i) (omega (arith, enough))
  interleave-left p (a ∷ rest) i out lt ready enough =
      let p' = act most p a in
      let size = ap (λ s. s.0) (act-stopped most p a out) in
      let (closer, ready') = act-Nearer p a i out lt ready in
      interleave-left p' rest i (ap (λ s. s.1) (act-stopped most p a out) ∙ out)
        (omega (arith, lt, size)) ready'
        (omega (arith, enough, closer, ap (λ n. rank n (place_at p' i)) size))

  -- After any interleaving from the pool as constructed in which `stop` was called, once the posts owed
  -- to a worker's semaphore have been delivered: in every further interleaving in which the thread of
  -- this worker takes at least nine steps and two for each worker, it is behind its loop at the end. The
  -- handling of the messages of one context counts as one step.
  pub stop_workers-left :
      (before actions : List Action) (i : ℕ)
      → let p = interleave most new_pool before in
        p.exiting ≡ true
        → i < length p.workers
        → (worker_at p.workers i).due ≡ 0
        → 9 + 2 * length p.workers ≤ own_steps i actions
        → place_at (interleave most p actions) i ≡ left
  stop_workers-left before actions i out lt delivered enough =
      let p = interleave most new_pool before in
      let w = worker_at p.workers i in
      let has =
        Each-at (HasPost p.exiting) p.workers i (interleave-AllHavePost most new_pool before tt)
          lt in
      interleave-left p actions i out lt
        (omega (
          arith,
          has,
          delivered,
          ap (λ b. needed b (is_nil w.queue) w.standing) out,
          needed-exiting (is_nil w.queue) w.standing,
        ))
        (omega (arith, enough, rank-bound (length p.workers) (place_at p i)))
