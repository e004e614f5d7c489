-- ===== src/WorkerMgr/Pool/Sums.antt =====
-- What an update of one worker does to a sum over the workers and to a property that all have.
use node_lua.Common.{
  ℕ, zero, suc, ◌+◌, ◌<◌, ◌≤◌, ◌≡◌, ◌≢◌, refl, ap, List, [], ◌∷◌, ◌++◌, length, get_or, arith,
}
use node_lua.WorkerMgr.Pool.{Worker, worker_at, update, left}

module _ (f : Worker → ℕ) where
  abbrev pub sum_of : List Worker → ℕ
  sum_of [] = 0
  sum_of (w ∷ ws) = f w + sum_of ws

  pub sum_of-append : (ws vs : List Worker) → sum_of (ws ++ vs) ≡ sum_of ws + sum_of vs
  sum_of-append [] vs = omega arith
  sum_of-append (w ∷ ws) vs = omega (arith, sum_of-append ws vs)

  pub sum_of-update :
      (ws : List Worker) (i : ℕ) (g : Worker → Worker)
      → i < length ws
      → sum_of (update ws i g) + f (worker_at ws i) ≡ sum_of ws + f (g (worker_at ws i))
  sum_of-update [] i g lt = absurd (omega (arith, lt))
  sum_of-update (w ∷ ws) zero g lt = omega arith
  sum_of-update (w ∷ ws) (suc i) g lt = omega (arith, sum_of-update ws i g (omega (arith, lt)))

  -- An update that leaves the weight of every worker as it is.
  pub sum_of-update_same :
      (ws : List Worker) (i : ℕ) (g : Worker → Worker)
      → ((w : Worker) → f (g w) ≡ f w)
      → sum_of (update ws i g) ≡ sum_of ws
  sum_of-update_same [] i g same = refl
  sum_of-update_same (w ∷ ws) zero g same = ap (λ n. n + sum_of ws) (same w)
  sum_of-update_same (w ∷ ws) (suc i) g same = ap (λ n. f w + n) (sum_of-update_same ws i g same)

pub length-update :
    (ws : List Worker) (i : ℕ) (g : Worker → Worker) → length (update ws i g) ≡ length ws
length-update [] i g = refl
length-update (w ∷ ws) zero g = refl
length-update (w ∷ ws) (suc i) g = ap suc (length-update ws i g)

-- A field that no update of another worker, and not this one, changes.
pub field-update {ℓ} :
    {A : Type ℓ} (f : Worker → A) (ws : List Worker) (i j : ℕ) (g : Worker → Worker)
    → ((w : Worker) → f (g w) ≡ f w)
    → f (worker_at (update ws j g) i) ≡ f (worker_at ws i)
field-update f [] i j g same = refl
field-update f (w ∷ ws) zero zero g same = same w
field-update f (w ∷ ws) zero (suc j) g same = refl
field-update f (w ∷ ws) (suc i) zero g same = refl
field-update f (w ∷ ws) (suc i) (suc j) g same = field-update f ws i j g same

pub worker_at-update :
    (ws : List Worker) (i : ℕ) (g : Worker → Worker)
    → i < length ws
    → worker_at (update ws i g) i ≡ g (worker_at ws i)
worker_at-update [] i g lt = absurd (omega (arith, lt))
worker_at-update (w ∷ ws) zero g lt = refl
worker_at-update (w ∷ ws) (suc i) g lt = worker_at-update ws i g (omega (arith, lt))

pub worker_at-update_ne :
    (ws : List Worker) (i j : ℕ) (g : Worker → Worker)
    → i ≢ j
    → worker_at (update ws j g) i ≡ worker_at ws i
worker_at-update_ne [] i j g ne = refl
worker_at-update_ne (w ∷ ws) zero zero g ne = absurd (ne refl)
worker_at-update_ne (w ∷ ws) zero (suc j) g ne = refl
worker_at-update_ne (w ∷ ws) (suc i) zero g ne = refl
worker_at-update_ne (w ∷ ws) (suc i) (suc j) g ne =
    worker_at-update_ne ws i j g (λ e. ne (ap suc e))

module _ (P : Worker → Type 0) where
  abbrev pub Each : List Worker → Type 0
  Each [] = Unit {0}
  Each (w ∷ ws) = P w × Each ws

  pub Each-update :
      (ws : List Worker) (i : ℕ) (g : Worker → Worker)
      → Each ws
      → (P (worker_at ws i) → P (g (worker_at ws i)))
      → Each (update ws i g)
  Each-update [] i g each one = tt
  Each-update (w ∷ ws) zero g (p, each) one = (one p, each)
  Each-update (w ∷ ws) (suc i) g (p, each) one = (p, Each-update ws i g each one)

  pub Each-append : (ws vs : List Worker) → Each ws → Each vs → Each (ws ++ vs)
  Each-append [] vs each others = others
  Each-append (w ∷ ws) vs (p, each) others = (p, Each-append ws vs each others)

  pub Each-at : (ws : List Worker) (i : ℕ) → Each ws → i < length ws → P (worker_at ws i)
  Each-at [] i each lt = absurd (omega (arith, lt))
  Each-at (w ∷ ws) zero (p, each) lt = p
  Each-at (w ∷ ws) (suc i) (p, each) lt = Each-at ws i each (omega (arith, lt))

pub get_or-beyond {ℓ} :
    {A : Type ℓ} (xs : List A) (i : ℕ) (d : A) → length xs ≤ i → get_or xs i d ≡ d
get_or-beyond [] i d le = refl
get_or-beyond (x ∷ xs) zero d le = absurd (omega (arith, le))
get_or-beyond (x ∷ xs) (suc i) d le = get_or-beyond xs i d (omega (arith, le))

pub worker_at-beyond :
    (ws : List Worker) (i : ℕ)
    → length ws ≤ i
    → worker_at ws i ≡ record { queue = []; posted = 0; due = 0; standing = left }
worker_at-beyond ws i le = get_or-beyond ws i _ le
