-- ===== src/ContextQueue/Examples.antt =====
-- Runs of a worker's queue on a few contexts, and the laws applied to them.
use node_lua.Common.{◌≡◌, refl, [], ◌∷◌, none, some, Bool, ◌==◌, if◌then◌else◌, arith}
use node_lua.ContextQueue.{
  Next, ContextQueue, init, get_length, push_one, push_many, try_pop_one, try_pop_half, pop_all,
}
use node_lua.ContextQueue.Chain.{Holds}
use node_lua.ContextQueue.Ops.{Pushed, push_one-Pushed, push_many-Pushed}
use node_lua.ContextQueue.Pops.{Popped, try_pop_one-Popped, Halved, try_pop_half-Halved}

abbrev unlinked : Next
unlinked c = none

-- 8 is linked to 9.
abbrev pair_link : Next
pair_link c = if c == 8 then some 9 else none

abbrev first_push : Next × ContextQueue × Bool
first_push = push_one unlinked init 7

abbrev second_push : Next × ContextQueue × Bool
second_push = push_one first_push.0 first_push.1 8

nothing : (next : Next) → Holds next init []
unfolding init
nothing next = record {
  at_head = refl;
  at_tail = refl;
  counted = refl;
  linked = tt;
  ended = λ t e. absurd (cc);
  distinct = tt;
}

push_one-Pushed_example : Pushed [] (7 ∷ []) first_push
push_one-Pushed_example = push_one-Pushed unlinked init [] 7 (nothing unlinked) tt (omega arith)

seven : Holds first_push.0 first_push.1 (7 ∷ [])
seven = (push_one-Pushed unlinked init [] 7 (nothing unlinked) tt (omega arith)).0

two : Holds second_push.0 second_push.1 (7 ∷ 8 ∷ [])
two =
    (push_one-Pushed first_push.0 first_push.1 (7 ∷ []) 8 seven ((omega arith), tt) (omega arith)).0

push_many-Pushed_example : Pushed [] (8 ∷ 9 ∷ []) (push_many pair_link init 8 9 2)
push_many-Pushed_example =
    push_many-Pushed pair_link init [] 8 (9 ∷ []) 9 (nothing pair_link) (refl, tt)
      ((omega arith, tt), (tt, tt)) tt refl (omega arith) (omega arith)

try_pop_one-Popped_example : Popped (7 ∷ 8 ∷ []) (try_pop_one second_push.0 second_push.1)
try_pop_one-Popped_example =
    try_pop_one-Popped second_push.0 second_push.1 (7 ∷ 8 ∷ []) two (omega arith)

try_pop_half-Halved_example : Halved (7 ∷ 8 ∷ []) (try_pop_half second_push.0 second_push.1)
try_pop_half-Halved_example =
    try_pop_half-Halved second_push.0 second_push.1 (7 ∷ 8 ∷ []) two (omega arith)

stolen_one : (try_pop_half second_push.0 second_push.1).0.first ≡ some 7
unfolding init push_one try_pop_half node_lua.ContextQueue.walk
stolen_one = refl
