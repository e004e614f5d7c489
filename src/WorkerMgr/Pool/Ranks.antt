-- ===== src/WorkerMgr/Pool/Ranks.antt =====
-- How far a thread is from its end, when the pool is to exit.
use node_lua.Common.{
  ℕ, zero, suc, ◌+◌, ◌-◌, ◌*◌, ◌<◌, ◌≤◌, ◌≡◌, refl, ap, List, [], ◌∷◌, Bool, true, false, length,
  ltb, not, ◌&&◌, ◌==◌, take, drop, arith, if◌then◌else◌, Bool-cases, inl, inr, ltb→lt,
}
use node_lua.WorkerMgr.Pool.{
  Worker, Place, looping, taking, waiting, left, scanning, halving, moving, running, putting, Pool,
  worker_at, update, set_place, set_queue, enqueue, half_length, Found, go_to, take_one, take_half,
  push_stolen, wait_on, target, go,
}
use node_lua.WorkerMgr.Pool.Sums.{length-update, worker_at-update}
use node_lua.WorkerMgr.Pool.Posts.{needed}

-- How many steps a thread has before it, at most, when the pool is to exit and has `n` workers.
abbrev pub rank : ℕ → Place → ℕ
rank n looping = 1
rank n taking = 9 + 2 * n
rank n waiting = 2
rank n left = 0
rank n (scanning j) = 8 + 2 * (n - j)
rank n (halving j) = 9 + 2 * (n - (j + 1))
rank n (moving c cs) = 4
rank n (running c) = 3
rank n (putting c) = 2

abbrev pub place_at : Pool → ℕ → Place
place_at p i = (worker_at p.workers i).standing

abbrev pub posted_at : Pool → ℕ → ℕ
posted_at p i = (worker_at p.workers i).posted

-- A thread at `at` would not block, when the pool is to exit.
abbrev pub NotBlocked : Place → ℕ → Type 0
NotBlocked at posted = needed true true at ≤ posted

-- After a step, the thread of `i` has `d` steps fewer before it, and does not block.
abbrev pub Nearer : ℕ → ℕ → Place → Pool → ℕ → Type 0
Nearer n d at p i =
    (rank n (place_at p i) ≤ rank n at - d) × NotBlocked (place_at p i) (posted_at p i)

-- It comes to a place.
arrives :
    (n : ℕ) (p : Pool) (i : ℕ) (at at' : Place)
    → i < length p.workers
    → rank n at' ≤ rank n at - 1
    → NotBlocked at' (posted_at p i)
    → Nearer n 1 at (go_to p i at') i
unfolding go_to
arrives n p i at at' lt closer ready = (
  omega (
    arith,
    closer,
    ap (λ w. rank n w.standing) (worker_at-update p.workers i (set_place at') lt),
  ),
  omega (
    arith,
    ready,
    ap (λ w. w.posted) (worker_at-update p.workers i (set_place at') lt),
    ap (λ w. needed true true w.standing) (worker_at-update p.workers i (set_place at') lt),
  ),
)

-- It comes to a place where it needs no post.
comes :
    (n : ℕ) (p : Pool) (i j : ℕ) (g : Worker → Worker) (at at' : Place)
    → i < length p.workers
    → rank n at' ≤ rank n at - 1
    → needed true true at' ≡ 0
    → Nearer n 1 at (go_to (record p { workers = update p.workers j g }) i at') i
comes n p i j g at at' lt closer idle =
    arrives n (record p { workers = update p.workers j g }) i at at'
      (omega (arith, lt, length-update p.workers j g)) closer (omega (arith, idle))

pub go-Nearer :
    (n : ℕ) (p : Pool) (i : ℕ) (found : Found) (at : Place)
    → n ≡ length p.workers
    → p.exiting ≡ true
    → i < length p.workers
    → place_at p i ≡ at
    → NotBlocked at (posted_at p i)
    → Nearer n 1 at (go p i found (worker_at p.workers i) at) i
unfolding go take_one take_half push_stolen wait_on
go-Nearer n p i found looping size out lt e ready =
    rw out (arrives n p i looping left lt (omega arith) (omega arith))
go-Nearer n p i found taking size out lt e ready = took (worker_at p.workers i).queue
  where
    took : (cs : List ℕ) → Nearer n 1 taking (take_one p i cs) i
    took [] = arrives n p i taking (scanning 0) lt (omega arith) ready
    took (c ∷ cs) = comes n p i i (set_queue cs) taking (running c) lt (omega arith) refl
go-Nearer n p i found (scanning j) size out lt e ready =
    elim (Bool-cases (ltb j (length p.workers))) [
      | inl more ↦ rw more (
          scans (not (j == i) && ltb 1 (length (worker_at p.workers j).queue))
            (ltb→lt j (length p.workers) more))
      | inr over ↦ rw over (arrives n p i (scanning j) waiting lt (omega arith) ready)
    ]
  where
    scans :
        (b : Bool)
        → j < length p.workers
        → Nearer n 1 (scanning j) (go_to p i (if b then halving j else scanning (j + 1))) i
    scans true in_range =
        arrives n p i (scanning j) (halving j) lt (omega (arith, in_range, size)) ready
    scans false in_range =
        arrives n p i (scanning j) (scanning (j + 1)) lt (omega (arith, in_range, size)) ready
go-Nearer n p i found (halving j) size out lt e ready =
    let queue = (worker_at p.workers j).queue in
    halved (take (half_length queue) queue) (drop (half_length queue) queue)
  where
    halved : (cs rest : List ℕ) → Nearer n 1 (halving j) (take_half p i j cs rest) i
    halved [] rest = arrives n p i (halving j) (scanning (j + 1)) lt (omega arith) ready
    halved (c ∷ cs) rest =
        comes n p i j (set_queue rest) (halving j) (moving c cs) lt (omega arith) refl
go-Nearer n p i found waiting size out lt e ready = waits (worker_at p.workers i).posted ready
  where
    waits : (m : ℕ) → 1 ≤ m → Nearer n 1 waiting (wait_on p i m) i
    waits zero le = absurd (omega (arith, le))
    waits (suc m) le = (
      omega (
        arith,
        ap (λ w. rank n w.standing)
            (worker_at-update p.workers i (λ w. record w { posted = m; standing = looping }) lt),
      ),
      omega (
        arith,
        ap (λ w. needed true true w.standing)
            (worker_at-update p.workers i (λ w. record w { posted = m; standing = looping }) lt),
      ),
    )
go-Nearer n p i found (moving c []) size out lt e ready =
    arrives n p i (moving c []) (running c) lt (omega arith) (omega arith)
go-Nearer n p i found (moving c (d ∷ cs)) size out lt e ready =
    comes n p i i (enqueue (d ∷ cs)) (moving c (d ∷ cs)) (running c) lt (omega arith) refl
go-Nearer n p i found (running c) size out lt e ready = runs found.more
  where
    runs :
        (b : Bool)
        → Nearer n 1
            (running c)
            (if b
              then go_to p i (putting c)
              else record (go_to p i looping) { released = c ∷ p.released })
            i
    runs true = arrives n p i (running c) (putting c) lt (omega arith) (omega arith)
    runs false = arrives n p i (running c) looping lt (omega arith) (omega arith)
go-Nearer n p i found (putting c) size out lt e ready =
    comes n p i (target p i found) (enqueue (c ∷ [])) (putting c) looping lt (omega arith) refl
go-Nearer n p i found left size out lt e ready =
    (omega (arith, ap (rank n) e), omega (arith, ap (needed true true) e))
