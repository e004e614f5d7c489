-- ===== src/Context.antt =====
-- src/context.h and src/context.cpp: a context, with its mailbox, its count of references and the
-- flag `m_processing`, which says that the context is in a run queue or with a worker. `A` is the
-- type of messages and `blank` what `message_t()` builds. `push_message` and `pop_message` run
-- under the lock of the mailbox, so each is one step. The worker a context is attached to is left
-- out: it is only passed on to the hooks of subclasses.
pub mod Schedule
mod Examples
use node_lua.Common.{
  ℕ, zero, suc, ◌+◌, ◌^◌, Option, none, some, Bool, true, false, not, ◌&&◌, ◌==◌, if◌then◌else◌,
}
use node_lua.Common.Words.{add64, sub64}
use node_lua.MessageQueue
use node_lua.MessageQueue.{MessageQueue}

pub record Context {ℓ} (A : Type ℓ) : Type ℓ where
  pub parent : ℕ
  pub handle : ℕ
  pub inited : Bool
  pub ref : ℕ
  pub processing : Bool
  pub queue : MessageQueue A

module _ {ℓ} {A : Type ℓ} where
  abbrev pub is_valid : Context A → Bool
  is_valid c = c.inited && not (c.handle == 0)

  abbrev pub grab : Context A → Context A
  grab c = record c { ref = add64 c.ref 1 }

  -- `none` once the context is deleted.
  pub release : Context A → Option (Context A)
  release c = if c.ref == 1 then none else some (record c { ref = sub64 c.ref 1 })

  unfoldable pub on_registered : Context A → ℕ → ℕ → Context A
  on_registered c parent handle =
      if c.handle == 0 then grab (record c { parent = parent; handle = handle }) else c

  unfoldable pub on_retired : Context A → Option (Context A)
  unfolding release
  on_retired c = if not (c.handle == 0) then release (record c { handle = 0 }) else some c

module _ {ℓ} {A : Type ℓ} (blank : A) where
  -- context_t()
  unfoldable pub init : Context A
  init = record {
    parent = 0;
    handle = 0;
    inited = false;
    ref = 1;
    processing = true;
    queue = MessageQueue.init blank;
  }

  -- What it sets `processing` to, or `none` where it returns false.
  pub push_message : Context A → A → Option Bool × Context A
  push_message c m =
      let (pushed, q) = MessageQueue.push blank c.queue m in
      if pushed
      then (some c.processing, record c { processing = true; queue = q })
      else (none, record c { queue = q })

  -- The message, or `none` where it returns false.
  pub pop_message : Context A → Option A × Context A
  pop_message c =
      let (message, q) = MessageQueue.pop blank c.queue in
      elim message [
        | some m ↦ (some m, record c { queue = q })
        | none ↦ (none, record c { processing = false; queue = q })
      ]
