-- ===== src/WorkerMgr/Pool/Others.antt =====
-- What one thread does leaves the place and the semaphore of the others.
use node_lua.Common.{
  ℕ, zero, suc, ◌+◌, ◌≡◌, ◌≢◌, refl, ap, ap₂, ◌∙◌, List, [], ◌∷◌, Bool, true, false, length, ltb,
  not, ◌&&◌, ◌==◌, take, drop, if◌then◌else◌,
}
use node_lua.WorkerMgr.Pool.{
  Worker, Place, looping, taking, waiting, left, scanning, halving, moving, running, putting, Pool,
  worker_at, update, set_place, set_queue, enqueue, half_length, Found, go_to, take_one, take_half,
  push_stolen, wait_on, target, go, process_step,
}
use node_lua.WorkerMgr.Pool.Sums.{field-update, worker_at-update_ne}

-- Where a thread stands, and its semaphore.
abbrev pub view : Pool → ℕ → Place × ℕ
view p i = ((worker_at p.workers i).standing, (worker_at p.workers i).posted)

pub queue-view :
    (p : Pool) (i j : ℕ) (g : Worker → Worker)
    → ((w : Worker) → (g w).standing ≡ w.standing)
    → ((w : Worker) → (g w).posted ≡ w.posted)
    → view (record p { workers = update p.workers j g }) i ≡ view p i
queue-view p i j g same same' =
    ap₂ (λ a b. (a, b)) (field-update (λ w. w.standing) p.workers i j g same)
      (field-update (λ w. w.posted) p.workers i j g same')

module _ (i k : ℕ) (ne : i ≢ k) where
  go_to-view : (p : Pool) (at : Place) → view (go_to p k at) i ≡ view p i
  unfolding go_to
  go_to-view p at =
      ap (λ w. (w.standing, w.posted)) (worker_at-update_ne p.workers i k (set_place at) ne)

  two_steps-view :
      (p : Pool) (j : ℕ) (g : Worker → Worker) (at : Place)
      → ((w : Worker) → (g w).standing ≡ w.standing)
      → ((w : Worker) → (g w).posted ≡ w.posted)
      → view (go_to (record p { workers = update p.workers j g }) k at) i ≡ view p i
  two_steps-view p j g at same same' =
      go_to-view (record p { workers = update p.workers j g }) at ∙ queue-view p i j g same same'

  go-view :
      (p : Pool) (found : Found) (w : Worker) (at : Place) → view (go p k found w at) i ≡ view p i
  unfolding go take_one take_half push_stolen wait_on
  go-view p found w looping = go_to-view p (if p.exiting then left else taking)
  go-view p found w taking = taken w.queue
    where
      taken : (cs : List ℕ) → view (take_one p k cs) i ≡ view p i
      taken [] = go_to-view p (scanning 0)
      taken (c ∷ cs) = two_steps-view p k (set_queue cs) (running c) (λ v. refl) (λ v. refl)
  go-view p found w (scanning j) = scanned (ltb j (length p.workers))
    where
      next : Place
      next =
          if not (j == k) && ltb 1 (length (worker_at p.workers j).queue)
          then halving j
          else scanning (j + 1)

      scanned : (b : Bool) → view (if b then go_to p k next else go_to p k waiting) i ≡ view p i
      scanned true = go_to-view p next
      scanned false = go_to-view p waiting
  go-view p found w (halving j) =
      let queue = (worker_at p.workers j).queue in
      halved (take (half_length queue) queue) (drop (half_length queue) queue)
    where
      halved : (cs rest : List ℕ) → view (take_half p k j cs rest) i ≡ view p i
      halved [] rest = go_to-view p (scanning (j + 1))
      halved (c ∷ cs) rest =
          two_steps-view p j (set_queue rest) (moving c cs) (λ v. refl) (λ v. refl)
  go-view p found w waiting = waited w.posted
    where
      waited : (n : ℕ) → view (wait_on p k n) i ≡ view p i
      waited zero = refl
      waited (suc n) =
          ap (λ v. (v.standing, v.posted))
            (worker_at-update_ne p.workers i k (λ v. record v { posted = n; standing = looping })
              ne)
  go-view p found w (moving c []) = go_to-view p (running c)
  go-view p found w (moving c (d ∷ cs)) =
      two_steps-view p k (enqueue (d ∷ cs)) (running c) (λ v. refl) (λ v. refl)
  go-view p found w (running c) = ran found.more
    where
      ran :
          (b : Bool)
          → view
              (if b
                then go_to p k (putting c)
                else record (go_to p k looping) { released = c ∷ p.released })
              i
            ≡ view p i
      ran true = go_to-view p (putting c)
      ran false = go_to-view p looping
  go-view p found w (putting c) =
      two_steps-view p (target p k found) (enqueue (c ∷ [])) looping (λ v. refl) (λ v. refl)
  go-view p found w left = refl

  pub process_step-view : (p : Pool) (found : Found) → view (process_step p k found) i ≡ view p i
  unfolding process_step
  process_step-view p found =
      go-view p found (worker_at p.workers k) (worker_at p.workers k).standing
