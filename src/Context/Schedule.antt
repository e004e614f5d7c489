-- ===== src/Context/Schedule.antt =====
-- src/node_lua.cpp (`context_send`), src/worker_mgr.cpp (`push_context`, `repush_context`,
-- `worker_process`) around one context, in steps of one critical section each: a sender tests the
-- context, pushes its message, and then, if the context was not processing, puts it into a run queue; a
-- worker takes it, pops messages, and gives it back or, when there are none, lets it go.
pub mod Held
pub mod Serve
pub mod Mailbox
pub mod Served
use node_lua.Common.{
  ℕ, zero, suc, ◌+◌, ◌-◌, ◌<◌, ◌≡◌, List, [], ◌∷◌, ◌++◌, Option, none, some, Bool, true, false, not,
  ◌&&◌, ◌||◌, ltb, ◌==◌, if◌then◌else◌,
}
use node_lua.Context.{Context, grab, release, push_message, pop_message}
use node_lua.WorkerMgr.{not_positive}

-- A context, and how many threads and queues are where with it: senders that have tested it, senders
-- that found it not processing and have not put it into a run queue, run queues that have it, workers
-- that have it, and workers that found no message and have not released it.
pub record Scheduled {ℓ} (A : Type ℓ) : Type ℓ where
  pub context : Context A
  pub sending : ℕ
  pub pushing : ℕ
  pub queued : ℕ
  pub running : ℕ
  pub leaving : ℕ

module _ {ℓ} {A : Type ℓ} where
  -- The test of `context_send`, with `msg.m_source`; it is made without a lock.
  pub tests : Scheduled A → ℕ → Scheduled A
  tests s source =
      let c = s.context in
      if not (c.handle == 0) && (c.inited || (c.handle == source))
      then record s { sending = s.sending + 1 }
      else s

  after_push : Scheduled A → Option Bool × Context A → Bool × Scheduled A
  after_push s (some true, c) = (true, record s { context = c })
  after_push s (some false, c) = (true, record s { context = c; pushing = s.pushing + 1 })
  after_push s (none, c) = (false, record s { context = c })

  -- `push_context` on the context, once a run queue is chosen.
  pub put_in_queue : Scheduled A → Scheduled A
  put_in_queue s = record s {
    context = grab s.context;
    pushing = s.pushing - 1;
    queued = s.queued + 1;
  }

  -- A worker takes it out of a run queue, its own or by stealing.
  pub take_from_queue : Scheduled A → Scheduled A
  take_from_queue s = record s { queued = s.queued - 1; running = s.running + 1 }

  -- `repush_context`
  pub give_back : Scheduled A → Scheduled A
  give_back s = record s { queued = s.queued + 1; running = s.running - 1 }

  after_pop : Scheduled A → Option A × Context A → Option A × Scheduled A
  after_pop s (some m, c) = (some m, record s { context = c })
  after_pop s (none, c) =
      (none, record s { context = c; running = s.running - 1; leaving = s.leaving + 1 })

  -- `running->release()`, which deletes the context when nobody else refers to it.
  pub let_go : Scheduled A → Option (Scheduled A)
  unfolding release
  let_go s = elim (release s.context) [
    | none ↦ none
    | some c ↦ some (record s { context = c; leaving = s.leaving - 1 })
  ]

module _ {ℓ} {A : Type ℓ} (blank : A) where
  -- `push_message` by a sender, and whether it succeeds.
  pub send : Scheduled A → A → Bool × Scheduled A
  unfolding after_push
  send s m = after_push s (push_message blank s.context m)

  -- `pop_message` by a worker.
  pub process : Scheduled A → Option A × Scheduled A
  unfolding after_pop
  process s = after_pop s (pop_message blank s.context)

  -- What senders and workers do, in any order, until the context is deleted.
  pub data Reaches (s : Scheduled A) : Scheduled A → Type ℓ where
    here : Reaches s s
    tested : (s' : Scheduled A) (source : ℕ) → Reaches s s' → Reaches s (tests s' source)
    sent :
        (s' : Scheduled A) (m : A)
        → Reaches s s'
        → 0 < s'.sending
        → Reaches s (record (send s' m).1 { sending = s'.sending - 1 })
    pushed : (s' : Scheduled A) → Reaches s s' → 0 < s'.pushing → Reaches s (put_in_queue s')
    taken : (s' : Scheduled A) → Reaches s s' → 0 < s'.queued → Reaches s (take_from_queue s')
    worked : (s' : Scheduled A) → Reaches s s' → 0 < s'.running → Reaches s (process s').1
    returned : (s' : Scheduled A) → Reaches s s' → 0 < s'.running → Reaches s (give_back s')
    released :
        (s' s'' : Scheduled A)
        → Reaches s s'
        → 0 < s'.leaving
        → let_go s' ≡ some s''
        → Reaches s s''
