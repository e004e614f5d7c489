-- ===== src/MessageQueue/Examples.antt =====
-- A mailbox at concrete states: empty, wrapped round the end of its storage, and full.
use node_lua.Common.{ℕ, ◌≡◌, refl, List, [], ◌∷◌, true, arith}
use node_lua.MessageQueue.{MessageQueue, push, run, expand_queue, copy_from, store_tail, advance}
use node_lua.MessageQueue.Fifo
use node_lua.MessageQueue.Fifo.{Op, push_op, pop_op, pushed, popped}
use node_lua.MessageQueue.Inv.{IsValid}
use node_lua.MessageQueue.Refine.{contents, run_refines}

-- Four slots, the oldest message in the last one.
abbrev wrapped : MessageQueue ℕ
wrapped = record { cap = 4; head = 3; tail = 2; size = 3; queue = 11 ∷ 12 ∷ 0 ∷ 10 ∷ [] }

-- The same ring with every slot in use.
abbrev full : MessageQueue ℕ
full = record { cap = 4; head = 3; tail = 3; size = 4; queue = 11 ∷ 12 ∷ 13 ∷ 10 ∷ [] }

wrapped-IsValid : IsValid wrapped
wrapped-IsValid = record {
  log = 2;
  power = refl;
  small = omega arith;
  storage = refl;
  head_in = omega arith;
  size_in = omega arith;
  tail_at = refl;
}

full-IsValid : IsValid full
full-IsValid = record {
  log = 2;
  power = refl;
  small = omega arith;
  storage = refl;
  head_in = omega arith;
  size_in = omega arith;
  tail_at = refl;
}

contents-full : contents 0 full ≡ 10 ∷ 11 ∷ 12 ∷ 13 ∷ []
contents-full = refl

-- A push into the full ring doubles it and starts again at slot 0.
doubled_by_push : push 0 full 14 ≡ (
  true,
  record { cap = 8; head = 0; tail = 5; size = 5; queue = 10 ∷ 11 ∷ 12 ∷ 13 ∷ 14 ∷ 0 ∷ 0 ∷ 0 ∷ [] },
)
unfolding push expand_queue copy_from store_tail advance
doubled_by_push = refl

abbrev script : List (Op ℕ)
script = push_op 13 ∷ push_op 14 ∷ pop_op ∷ pop_op ∷ []

run_refines_example : run 0 wrapped script ≡ Fifo.run (10 ∷ 11 ∷ 12 ∷ []) script
run_refines_example = run_refines 0 script wrapped-IsValid
