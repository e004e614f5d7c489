-- ===== src/WorkerMgr/Pool.antt =====
-- src/worker_mgr.cpp, src/worker.h: the threads of the workers, other threads that hand contexts
-- over, and how their steps mix. A run queue is the list of its contexts (what ContextQueue's chains
-- of links stand for), each operation on it is one step, since it runs under the queue's lock, and
-- so is each read of a queue's length. `uv_sem_post` comes after the lock is given back, so a push
-- only owes a post, which is a step of its own.
pub mod Sums
pub mod Lengths
pub mod Target
pub mod Weights
pub mod Conserved
pub mod Posts
pub mod Ranks
pub mod Wakeup
pub mod Others
pub mod Stop
mod Examples
use node_lua.Common.{
  ℕ, zero, suc, ◌+◌, ◌-◌, ◌*◌, ◌/◌, min, List, [], ◌∷◌, ◌++◌, Bool, true, false, not, ◌&&◌, ltb,
  ◌==◌, if◌then◌else◌, length, get_or, take, drop,
}
use node_lua.Common.Words.{add64}
use node_lua.WorkerMgr.{push_context, repush_context}

-- Where the thread of a worker stands in `worker_process`: before the test of its loop, before
-- `try_pop_one_context`, in `steal_context` before the test of worker `i` or before the half of its
-- queue is taken, before `worker->wait()`, with stolen contexts, with the context whose messages it
-- handles, before `repush_context`, and behind the loop.
pub data Place : Type 0 where
  looping taking waiting left : Place
  scanning halving : ℕ → Place
  moving : ℕ → List ℕ → Place
  running putting : ℕ → Place

-- `posted` is the semaphore's value, `due` the posts that are owed to it.
pub record Worker : Type 0 where
  pub queue : List ℕ
  pub posted : ℕ
  pub due : ℕ
  pub standing : Place

-- `pushes` is `m_worker_push_index`; `released` are the contexts that workers gave back their
-- reference to.
pub record Pool : Type 0 where
  pub workers : List Worker
  pub pushes : ℕ
  pub exiting : Bool
  pub released : List ℕ

abbrev pub new_worker : Worker
new_worker = record { queue = []; posted = 0; due = 0; standing = looping }

-- The pool as constructed, before `start`.
abbrev pub new_pool : Pool
new_pool = record { workers = []; pushes = 0; exiting = false; released = [] }

-- A worker that does not exist does nothing.
abbrev pub worker_at : List Worker → ℕ → Worker
worker_at ws i = get_or ws i (record { queue = []; posted = 0; due = 0; standing = left })

abbrev pub update : List Worker → ℕ → (Worker → Worker) → List Worker
update [] i g = []
update (w ∷ ws) zero g = g w ∷ ws
update (w ∷ ws) (suc i) g = w ∷ update ws i g

abbrev pub is_nil : List ℕ → Bool
is_nil [] = true
is_nil (c ∷ cs) = false

-- push_one, push_many: a post is owed when the queue was empty.
abbrev pub enqueue : List ℕ → Worker → Worker
enqueue cs w = record w { queue = w.queue ++ cs; due = w.due + (if is_nil w.queue then 1 else 0) }

abbrev pub set_queue : List ℕ → Worker → Worker
set_queue cs w = record w { queue = cs }

abbrev pub set_place : Place → Worker → Worker
set_place at w = record w { standing = at }

-- The rest of what `try_pop_half` needs of a queue: how many it takes.
abbrev pub half_length : List ℕ → ℕ
half_length cs = length cs / 2

-- The lengths that `repush_context` reads of `n` workers from `i` on.
pub readings : (ℕ → ℕ) → ℕ → ℕ → List ℕ
readings seen i zero = []
readings seen i (suc n) = seen i ∷ readings seen (i + 1) n

-- What a worker finds: whether the context has more messages when it stops to handle them, and the
-- lengths it reads in `repush_context`, first its own, which may be any, since others go on.
pub record Found : Type 0 where
  pub more : Bool
  pub own : ℕ
  pub seen : ℕ → ℕ

go_to : Pool → ℕ → Place → Pool
go_to p i at = record p { workers = update p.workers i (set_place at) }

-- try_pop_one_context
take_one : Pool → ℕ → List ℕ → Pool
unfolding go_to
take_one p i [] = go_to p i (scanning 0)
take_one p i (c ∷ cs) =
    go_to (record p { workers = update p.workers i (set_queue cs) }) i (running c)

-- try_pop_half_context of worker `j`, whose queue is given in two parts.
take_half : Pool → ℕ → ℕ → List ℕ → List ℕ → Pool
unfolding go_to
take_half p i j [] rest = go_to p i (scanning (j + 1))
take_half p i j (c ∷ cs) rest =
    go_to (record p { workers = update p.workers j (set_queue rest) }) i (moving c cs)

-- push_many_context of what was stolen behind the first.
push_stolen : Pool → ℕ → List ℕ → Pool
push_stolen p i [] = p
push_stolen p i (c ∷ cs) = record p { workers = update p.workers i (enqueue (c ∷ cs)) }

wait_on : Pool → ℕ → ℕ → Pool
wait_on p i zero = p
wait_on p i (suc n) = record p {
  workers = update p.workers i (λ w. record w { posted = n; standing = looping });
}

-- The worker that gets back a context.
pub target : Pool → ℕ → Found → ℕ
unfolding readings
target p i found = repush_context i found.own (readings found.seen 0 (length p.workers))

-- One step of the thread of worker `i`.
pub go : Pool → ℕ → Found → Worker → Place → Pool
unfolding go_to take_one take_half push_stolen wait_on target
go p i found w looping = go_to p i (if p.exiting then left else taking)
go p i found w taking = take_one p i w.queue
go p i found w (scanning j) =
    if ltb j (length p.workers)
    then go_to p i (
        if not (j == i) && ltb 1 (length (worker_at p.workers j).queue)
        then halving j
        else scanning (j + 1))
    else go_to p i waiting
go p i found w (halving j) =
    let queue = (worker_at p.workers j).queue in
    take_half p i j (take (half_length queue) queue) (drop (half_length queue) queue)
go p i found w waiting = wait_on p i w.posted
go p i found w (moving c cs) = go_to (push_stolen p i cs) i (running c)
go p i found w (running c) =
    if found.more
    then go_to p i (putting c)
    else record (go_to p i looping) { released = c ∷ p.released }
go p i found w (putting c) =
    go_to (record p { workers = update p.workers (target p i found) (enqueue (c ∷ [])) }) i looping
go p i found w left = p

pub process_step : Pool → ℕ → Found → Pool
unfolding go
process_step p i found = go p i found (worker_at p.workers i) (worker_at p.workers i).standing

-- push_context, from any thread, on a pool that was started.
pub hand_over : Pool → ℕ → Pool
unfolding push_context
hand_over p c = record p {
  workers = update p.workers (push_context p.pushes (length p.workers)) (enqueue (c ∷ []));
  pushes = add64 p.pushes 1;
}

-- WORKER_LOAD_THRESHOLD
abbrev pub worker_load_threshold : ℕ
worker_load_threshold = 2

-- start_worker, and check_load before it.
pub start_worker : ℕ → Pool → ℕ → Pool
start_worker max_worker_num p ctx_num =
    if not p.exiting
      && (ltb (length p.workers) max_worker_num
          && ltb (length p.workers * worker_load_threshold) ctx_num)
    then record p { workers = p.workers ++ (new_worker ∷ []) }
    else p

owe_all : List Worker → List Worker
owe_all [] = []
owe_all (w ∷ ws) = record w { due = w.due + 1 } ∷ owe_all ws

-- stop: the wakeups are owed.
pub stop_workers : Pool → Pool
unfolding owe_all
stop_workers p = if p.exiting then p else record p { exiting = true; workers = owe_all p.workers }

-- A post that is owed to worker `i` arrives.
arrive : Worker → ℕ → Worker
arrive w zero = w
arrive w (suc n) = record w { posted = w.posted + 1; due = n }

pub post : Pool → ℕ → Pool
unfolding arrive
post p i = record p { workers = update p.workers i (λ w. arrive w w.due) }

pub data Action : Type 0 where
  hands_over checks_load posts : ℕ → Action
  stops : Action
  goes : ℕ → Found → Action

module _ (max_worker_num : ℕ) where
  pub act : Pool → Action → Pool
  unfolding hand_over start_worker stop_workers post process_step
  act p (hands_over c) = hand_over p c
  act p (checks_load ctx_num) = start_worker max_worker_num p ctx_num
  act p (posts i) = post p i
  act p stops = stop_workers p
  act p (goes i found) = process_step p i found

  -- Any interleaving.
  unfoldable pub interleave : Pool → List Action → Pool
  unfolding act
  interleave p [] = p
  interleave p (a ∷ rest) = interleave (act p a) rest

-- init_max_worker_num, once `m_cpu_count` is known.
pub init_max_worker_num : ℕ → ℕ
init_max_worker_num cpu_count = if ltb 1 cpu_count then min (cpu_count - 1) 64 else 1
