-- ===== src/ContextQueue.antt =====
-- src/context_queue.h and src/context_queue.cpp: the run queue of a worker, a list of contexts
-- linked through their own `m_next_processing`. `next` is that field of every context, a context
-- is its number, and `none` is NULL. Each function is what runs under the queue's spin lock; the
-- Boolean beside the result says whether the semaphore is posted.
pub mod Chain
pub mod Ops
pub mod Pops
mod Examples
use node_lua.Common.{
  ℕ, zero, suc, ◌+◌, ◌-◌, ◌/◌, ◌%◌, ◌^◌, Option, none, some, Bool, true, false, ltb, ◌==◌,
  if◌then◌else◌,
}
use node_lua.Common.Words.{add64, sub64}

-- `m_next_processing` of each context.
abbrev pub Next : Type 0
Next = ℕ → Option ℕ

-- `context->link(next)`; `context->unlink()` is a link to NULL.
abbrev pub link : Next → ℕ → Option ℕ → Next
link next c o d = if d == c then o else next d

pub record ContextQueue : Type 0 where
  pub head : Option ℕ
  pub tail : Option ℕ
  pub queue_count : ℕ

pub init : ContextQueue
init = record { head = none; tail = none; queue_count = 0 }

-- get_length(): the count as an `int32_t`.
abbrev pub get_length : ContextQueue → ℕ
get_length q = q.queue_count % 2 ^ 32

append_one : Next → ContextQueue → ℕ → Option ℕ → Next × ContextQueue × Bool
append_one next q c (some t) =
    (link next t (some c), record q { tail = some c; queue_count = add64 q.queue_count 1 }, false)
append_one next q c none = (next, record { head = some c; tail = some c; queue_count = 1 }, true)

pub push_one : Next → ContextQueue → ℕ → Next × ContextQueue × Bool
unfolding append_one
push_one next q c = append_one (link next c none) q c q.tail

append_many : Next → ContextQueue → ℕ → ℕ → ℕ → Option ℕ → Next × ContextQueue × Bool
append_many next q h t n (some last) = (
  link next last (some h),
  record q { tail = some t; queue_count = add64 q.queue_count n },
  false,
)
append_many next q h t n none =
    (next, record { head = some h; tail = some t; queue_count = n }, true)

-- An `int32_t` argument, as what is added to the 64-bit count.
abbrev pub int32_argument : ℕ → ℕ
int32_argument n = if ltb (n % 2 ^ 32) (2 ^ 31) then n % 2 ^ 32 else n % 2 ^ 32 + 2 ^ 64 - 2 ^ 32

-- push_many, with `n` as the caller has it before it becomes an `int32_t`.
pub push_many : Next → ContextQueue → ℕ → ℕ → ℕ → Next × ContextQueue × Bool
unfolding append_many
push_many next q h t n =
    let length = int32_argument n in
    if length == 1 then push_one next q h else append_many (link next t none) q h t length q.tail

-- The queue once `m_head` has moved on to `rest`.
behind : ContextQueue → Option ℕ → ContextQueue
behind q (some h) = record q { head = some h; queue_count = sub64 q.queue_count 1 }
behind q none = record { head = none; tail = none; queue_count = 0 }

take_head : Next → ContextQueue → Option ℕ → Option ℕ × Next × ContextQueue
unfolding behind
take_head next q none = (none, next, q)
take_head next q (some c) = (some c, link next c none, behind q (next c))

pub try_pop_one : Next → ContextQueue → Option ℕ × Next × ContextQueue
unfolding take_head
try_pop_one next q = take_head next q q.head

-- `for (; i < half; ++i) tail = tail->next();` with `rounds` left; a null `tail` would be a fault,
-- and stays `none`.
pub walk : Next → ℕ → Option ℕ → Option ℕ
walk next zero t = t
walk next (suc rounds) none = none
walk next (suc rounds) (some t) = walk next rounds (next t)

-- The first half of the queue, from its head to its tail, if there is one.
pub record Stolen : Type 0 where
  pub half : ℕ
  pub first : Option ℕ
  pub last : Option ℕ

cut_after : Next → ContextQueue → ℕ → Option ℕ → Stolen × Next × ContextQueue
cut_after next q half none = (record { half = half; first = q.head; last = none }, next, q)
cut_after next q half (some t) = (
  record { half = half; first = q.head; last = some t },
  link next t none,
  record q { head = next t; queue_count = sub64 q.queue_count half },
)

half_of : Next → ContextQueue → Option ℕ → Stolen × Next × ContextQueue
unfolding cut_after
half_of next q none = (record { half = 0; first = none; last = none }, next, q)
half_of next q (some h) =
    let half = q.queue_count / 2 % 2 ^ 32 in
    if half == 0
    then (record { half = 0; first = none; last = none }, next, q)
    else cut_after next q half (walk next (half - 1) (some h))

pub try_pop_half : Next → ContextQueue → Stolen × Next × ContextQueue
unfolding half_of
try_pop_half next q = half_of next q q.head

pub pop_all : ContextQueue → Option ℕ × ContextQueue
pop_all q = (q.head, record { head = none; tail = none; queue_count = 0 })
