-- ===== src/WorkerMgr/Pool/Posts.antt =====
-- The posts that threads rely on, through the steps of a thread.
use node_lua.Common.{
  ℕ, zero, suc, ◌+◌, ◌<◌, ◌≤◌, ◌≡◌, refl, ap, sym, ◌∙◌, List, [], ◌∷◌, ◌++◌, Bool, true, false,
  length, ltb, not, ◌&&◌, ◌||◌, ◌==◌, take, drop, length-take, length-drop, arith, if◌then◌else◌,
}
use node_lua.WorkerMgr.Pool.{
  Worker, Place, looping, taking, waiting, left, scanning, halving, moving, running, putting, Pool,
  worker_at, update, set_place, set_queue, enqueue, is_nil, half_length, Found, go_to, take_one,
  take_half, push_stolen, wait_on, target, go,
}
use node_lua.WorkerMgr.Pool.Sums.{Each, Each-update}

-- How many posts a thread relies on: one when it is on its way to the semaphore and its queue is not
-- empty or the pool is to exit, or when it is about to look into its queue and the pool is to exit.
abbrev pub needed : Bool → Bool → Place → ℕ
needed exiting empty taking = if exiting then 1 else 0
needed exiting empty waiting = if exiting || not empty then 1 else 0
needed exiting empty (scanning j) = if exiting || not empty then 1 else 0
needed exiting empty (halving j) = if exiting || not empty then 1 else 0
needed exiting empty looping = 0
needed exiting empty left = 0
needed exiting empty (moving c cs) = 0
needed exiting empty (running c) = 0
needed exiting empty (putting c) = 0

abbrev pub HasPost : Bool → Worker → Type 0
HasPost exiting w = needed exiting (is_nil w.queue) w.standing ≤ w.posted + w.due

abbrev pub AllHavePost : Pool → Type 0
AllHavePost p = Each (HasPost p.exiting) p.workers

at_most_one : (b : Bool) → (if b then 1 else 0) ≤ 1
at_most_one true = omega arith
at_most_one false = omega arith

pub needed-one : (exiting empty : Bool) (at : Place) → needed exiting empty at ≤ 1
needed-one exiting empty taking = at_most_one exiting
needed-one exiting empty waiting = at_most_one (exiting || not empty)
needed-one exiting empty (scanning j) = at_most_one (exiting || not empty)
needed-one exiting empty (halving j) = at_most_one (exiting || not empty)
needed-one exiting empty looping = omega arith
needed-one exiting empty left = omega arith
needed-one exiting empty (moving c cs) = omega arith
needed-one exiting empty (running c) = omega arith
needed-one exiting empty (putting c) = omega arith

-- A push owes a post to a queue that was empty.
pub enqueue-HasPost :
    (exiting : Bool) (c : ℕ) (cs : List ℕ) (w : Worker)
    → HasPost exiting w
    → HasPost exiting (enqueue (c ∷ cs) w)
enqueue-HasPost exiting c cs w has = by_queue w.queue has
  where
    by_queue :
        (q : List ℕ)
        → needed exiting (is_nil q) w.standing ≤ w.posted + w.due
        → needed exiting (is_nil (q ++ (c ∷ cs))) w.standing
          ≤ w.posted + (w.due + (if is_nil q then 1 else 0))
    by_queue [] le = omega (arith, needed-one exiting false w.standing)
    by_queue (d ∷ ds) le = omega (arith, le)

set_queue-HasPost :
    (exiting : Bool) (cs : List ℕ) (w : Worker)
    → is_nil w.queue ≡ is_nil cs
    → HasPost exiting w
    → HasPost exiting (set_queue cs w)
set_queue-HasPost exiting cs w same has =
    omega (arith, has, ap (λ b. needed exiting b w.standing) same)

is_nil-pos : (xs : List ℕ) → 0 < length xs → is_nil xs ≡ false
is_nil-pos [] lt = absurd (omega (arith, lt))
is_nil-pos (x ∷ xs) lt = refl

go_to-AllHavePost :
    (p : Pool) (i : ℕ) (at : Place)
    → AllHavePost p
    → (HasPost p.exiting (worker_at p.workers i)
        → HasPost p.exiting (set_place at (worker_at p.workers i)))
    → AllHavePost (go_to p i at)
unfolding go_to
go_to-AllHavePost p i at all one =
    Each-update (HasPost p.exiting) p.workers i (set_place at) all one

-- A place that needs no post.
rests :
    (p : Pool) (i : ℕ) (at : Place)
    → ((empty : Bool) → needed p.exiting empty at ≡ 0)
    → AllHavePost p
    → AllHavePost (go_to p i at)
rests p i at idle all =
    go_to-AllHavePost p i at all (λ has. omega (arith, idle (is_nil (worker_at p.workers i).queue)))

-- A place that needs what the one before it needed.
wanders :
    (p : Pool) (i : ℕ) (at at' : Place)
    → (worker_at p.workers i).standing ≡ at
    → (needed p.exiting (is_nil (worker_at p.workers i).queue) at'
        ≡ needed p.exiting (is_nil (worker_at p.workers i).queue) at)
    → AllHavePost p
    → AllHavePost (go_to p i at')
wanders p i at at' e same all = go_to-AllHavePost p i at' all (λ has.
    omega (arith, has, same, ap (needed p.exiting (is_nil (worker_at p.workers i).queue)) e))

-- A queue is changed so that its worker has its post, and then a thread comes to such a place.
changes :
    (p : Pool) (i j : ℕ) (g : Worker → Worker) (at : Place)
    → ((empty : Bool) → needed p.exiting empty at ≡ 0)
    → AllHavePost p
    → (HasPost p.exiting (worker_at p.workers j) → HasPost p.exiting (g (worker_at p.workers j)))
    → AllHavePost (go_to (record p { workers = update p.workers j g }) i at)
changes p i j g at idle all one =
    rests (record p { workers = update p.workers j g }) i at idle
      (Each-update (HasPost p.exiting) p.workers j g all one)

or_not : (b : Bool) → needed b true (scanning 0) ≡ (if b then 1 else 0)
or_not true = refl
or_not false = refl

take_one-AllHavePost :
    (p : Pool) (i : ℕ) (cs : List ℕ)
    → (worker_at p.workers i).standing ≡ taking
    → (worker_at p.workers i).queue ≡ cs
    → AllHavePost p
    → AllHavePost (take_one p i cs)
unfolding take_one
take_one-AllHavePost p i [] e q all =
    wanders p i taking (scanning 0) e
      (ap (λ l. needed p.exiting (is_nil l) (scanning 0)) q ∙ or_not p.exiting) all
take_one-AllHavePost p i (c ∷ cs) e q all =
    changes p i i (set_queue cs) (running c) (λ b. refl) all
      (λ has. omega (
        arith,
        has,
        ap (needed p.exiting (is_nil (worker_at p.workers i).queue)) e,
        ap (needed p.exiting (is_nil cs)) e,
      ))

take_half-AllHavePost :
    (p : Pool) (i j : ℕ) (cs rest : List ℕ)
    → (worker_at p.workers i).standing ≡ halving j
    → (0 < length cs → is_nil (worker_at p.workers j).queue ≡ is_nil rest)
    → AllHavePost p
    → AllHavePost (take_half p i j cs rest)
unfolding take_half
take_half-AllHavePost p i j [] rest e same all =
    wanders p i (halving j) (scanning (j + 1)) e refl all
take_half-AllHavePost p i j (c ∷ cs) rest e same all =
    changes p i j (set_queue rest) (moving c cs) (λ b. refl) all
      (set_queue-HasPost p.exiting rest (worker_at p.workers j) (same (omega arith)))

-- A half leaves something.
half-is_nil :
    (q : List ℕ) → 0 < length (take (half_length q) q) → is_nil q ≡ is_nil (drop (half_length q) q)
half-is_nil q lt =
    is_nil-pos q (omega (arith, lt, length-take (half_length q) q))
    ∙ sym (
        is_nil-pos (drop (half_length q) q)
          (omega (arith, lt, length-take (half_length q) q, length-drop (half_length q) q)))

pub go-AllHavePost :
    (p : Pool) (i : ℕ) (found : Found) (at : Place)
    → (worker_at p.workers i).standing ≡ at
    → AllHavePost p
    → AllHavePost (go p i found (worker_at p.workers i) at)
unfolding go wait_on push_stolen
go-AllHavePost p i found looping e all =
    rests p i (if p.exiting then left else taking) (idle p.exiting) all
  where
    idle : (b empty : Bool) → needed b empty (if b then left else taking) ≡ 0
    idle true empty = refl
    idle false empty = refl
go-AllHavePost p i found taking e all =
    take_one-AllHavePost p i (worker_at p.workers i).queue e refl all
go-AllHavePost p i found (scanning j) e all =
    scans (ltb j (length p.workers)) (not (j == i) && ltb 1 (length (worker_at p.workers j).queue))
  where
    scans :
        (a b : Bool)
        → AllHavePost
            (if a then go_to p i (if b then halving j else scanning (j + 1)) else go_to p i waiting)
    scans true true = wanders p i (scanning j) (halving j) e refl all
    scans true false = wanders p i (scanning j) (scanning (j + 1)) e refl all
    scans false b = wanders p i (scanning j) waiting e refl all
go-AllHavePost p i found (halving j) e all =
    let queue = (worker_at p.workers j).queue in
    take_half-AllHavePost p i j (take (half_length queue) queue) (drop (half_length queue) queue) e
      (half-is_nil queue) all
go-AllHavePost p i found waiting e all = waits (worker_at p.workers i).posted
  where
    waits : (n : ℕ) → AllHavePost (wait_on p i n)
    waits zero = all
    waits (suc n) =
        Each-update (HasPost p.exiting) p.workers i
          (λ w. record w { posted = n; standing = looping }) all (λ has. omega arith)
go-AllHavePost p i found (moving c []) e all = rests p i (running c) (λ b. refl) all
go-AllHavePost p i found (moving c (d ∷ cs)) e all =
    changes p i i (enqueue (d ∷ cs)) (running c) (λ b. refl) all
      (enqueue-HasPost p.exiting d cs (worker_at p.workers i))
go-AllHavePost p i found (running c) e all = runs found.more
  where
    runs :
        (b : Bool)
        → AllHavePost (
            if b
            then go_to p i (putting c)
            else record (go_to p i looping) { released = c ∷ p.released })
    runs true = rests p i (putting c) (λ b. refl) all
    runs false = rests p i looping (λ b. refl) all
go-AllHavePost p i found (putting c) e all =
    changes p i (target p i found) (enqueue (c ∷ [])) looping (λ b. refl) all
      (enqueue-HasPost p.exiting c [] (worker_at p.workers (target p i found)))
go-AllHavePost p i found left e all = all
