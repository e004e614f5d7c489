-- ===== src/WorkerMgr/Pool/Target.antt =====
-- The worker that gets a context back is one of the pool.
use node_lua.Common.{
  ℕ, zero, suc, ◌+◌, ◌-◌, ◌^◌, ◌<◌, ◌≤◌, ◌≡◌, refl, ap, List, [], ◌∷◌, Bool, true, false, length,
  ltb, ◌==◌, arith, if◌then◌else◌,
}
use node_lua.WorkerMgr.{repush_context, least_loaded, not_positive}
use node_lua.WorkerMgr.Pool.{Worker, Pool, worker_at, readings, Found, target}

length-readings : (seen : ℕ → ℕ) (i n : ℕ) → length (readings seen i n) ≡ n
unfolding readings
length-readings seen i zero = refl
length-readings seen i (suc n) = ap suc (length-readings seen (i + 1) n)

-- The loop chooses the worker it had or one that it comes to.
least_loaded-bound :
    (n m l i : ℕ) (lengths : List ℕ)
    → m < n
    → i + length lengths ≤ n
    → least_loaded m l i lengths < n
unfolding least_loaded
least_loaded-bound n m l i [] lt le = lt
least_loaded-bound n m l i (x ∷ xs) lt le =
    let closer = least_loaded-bound n i x (i + 1) xs (omega (arith, le)) (omega (arith, le)) in
    let same = least_loaded-bound n m l (i + 1) xs lt (omega (arith, le)) in
    choose_bound (x == 0) (ltb x l) (omega (arith, le)) closer same
  where
    choose_bound :
        (a b : Bool) {u v w : ℕ} → u < n → v < n → w < n → (if a then u else if b then v else w) < n
    choose_bound true b lu lv lw = lu
    choose_bound false true lu lv lw = lv
    choose_bound false false lu lv lw = lw

-- A context goes to a worker that exists, whatever lengths are read.
pub target-bound :
    (p : Pool) (i : ℕ) (found : Found) → i < length p.workers → target p i found < length p.workers
unfolding target repush_context
target-bound p i found lt = cond_bound (not_positive found.own) lt (
    least_loaded-bound (length p.workers) 0 (2 ^ 32 - 1) 0
      (readings found.seen 0 (length p.workers)) (omega (arith, lt))
      (omega (arith, length-readings found.seen 0 (length p.workers))))
  where
    cond_bound :
        (b : Bool) {u v : ℕ}
        → u < length p.workers
        → v < length p.workers
        → (if b then u else v) < length p.workers
    cond_bound true lu lv = lu
    cond_bound false lu lv = lv

-- A worker with a context in its queue exists.
pub there :
    (ws : List Worker) (j c : ℕ) (cs : List ℕ) → (worker_at ws j).queue ≡ c ∷ cs → j < length ws
there [] j c cs e = absurd (cc)
there (w ∷ ws) zero c cs e = omega arith
there (w ∷ ws) (suc j) c cs e = omega (arith, there ws j c cs e)
