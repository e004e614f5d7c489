-- ===== src/MessageQueue.antt =====
-- src/message_queue.h and src/message_queue.cpp: the mailbox of a context, a ring of messages
-- that doubles when it is full. `blank` is what `message_t()` builds, which fills fresh slots.
-- `new` does not fail here (it throws), so the test `if (new_queue)` is always taken.
pub mod Fifo
pub mod Inv
pub mod Slots
pub mod Expand
pub mod Refine
mod Examples
use node_lua.Common.{
  ℕ, zero, suc, ◌+◌, List, [], ◌∷◌, Option, none, some, Bool, true, false, bit_and, ltb, ◌==◌, not,
  if◌then◌else◌, get_or, set, replicate,
}
use Fifo.{Op, push_op, pop_op, Reply, pushed, popped}
use node_lua.Common.Words.{add32, sub32, shl32}

-- DEFAULT_MQ_SIZE
abbrev pub default_mq_size : ℕ
default_mq_size = 64

pub record MessageQueue {ℓ} (A : Type ℓ) : Type ℓ where
  pub cap : ℕ
  pub head : ℕ
  pub tail : ℕ
  pub size : ℕ
  pub queue : List A

-- The next index round the ring.
pub advance : ℕ → ℕ → ℕ
advance cap i = if not (add32 i 1 == cap) then add32 i 1 else 0

-- The part of `push` that both of its tests lead to.
pub store_tail {ℓ} : {A : Type ℓ} → MessageQueue A → A → MessageQueue A
store_tail q m = record q {
  size = add32 q.size 1;
  queue = set q.queue q.tail m;
  tail = advance q.cap q.tail;
}

module _ {ℓ} {A : Type ℓ} (blank : A) where
  -- message_queue_t()
  pub init : MessageQueue A
  init = record {
    cap = default_mq_size;
    head = 0;
    tail = 0;
    size = 0;
    queue = replicate default_mq_size blank;
  }

  -- The loop of `expand_queue` from index `i`, with `rounds` of `i < m_size` left.
  pub copy_from : MessageQueue A → ℕ → ℕ → List A → List A
  copy_from q zero i new_queue = new_queue
  copy_from q (suc rounds) i new_queue =
      copy_from q rounds (add32 i 1)
        (set new_queue i (get_or q.queue (bit_and (add32 q.head i) (sub32 q.cap 1)) blank))

  pub expand_queue : MessageQueue A → Bool × MessageQueue A
  expand_queue q =
      let new_cap = shl32 q.cap 1 in
      if ltb q.cap new_cap
      then (
        true,
        record {
          cap = new_cap;
          head = 0;
          tail = q.size;
          size = q.size;
          queue = copy_from q q.size 0 (replicate new_cap blank);
        },
      )
      else (false, q)

  pub push : MessageQueue A → A → Bool × MessageQueue A
  push q m =
      if ltb q.size q.cap
      then (true, store_tail q m)
      else (let (grown, q') = expand_queue q in
          if grown then (true, store_tail q' m) else (false, q'))

  -- The message read, or `none` where `pop` returns false and leaves its argument alone.
  pub pop : MessageQueue A → Option A × MessageQueue A
  pop q =
      if ltb 0 q.size
      then (
        some (get_or q.queue q.head blank),
        record q { size = sub32 q.size 1; head = advance q.cap q.head },
      )
      else (none, q)

-- get_length()
abbrev pub get_length {ℓ} : {A : Type ℓ} → MessageQueue A → ℕ
get_length q = q.size

-- A client's calls in order, with what each returns.
pub run {ℓ} : {A : Type ℓ} → A → MessageQueue A → List (Op A) → List (Reply A)
run blank q [] = []
run blank q (push_op m ∷ ops) = let (b, q') = push blank q m in pushed b ∷ run blank q' ops
run blank q (pop_op ∷ ops) = let (o, q') = pop blank q in popped o ∷ run blank q' ops
