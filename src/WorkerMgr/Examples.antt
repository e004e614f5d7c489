-- ===== src/WorkerMgr/Examples.antt =====
-- Three workers with five, two and four contexts.
use node_lua.Common.{◌<◌, ◌≡◌, refl, [], ◌∷◌, get_or, arith}
use node_lua.WorkerMgr.{repush_context, push_context}
use node_lua.WorkerMgr.Least.{AllAtLeast, repush_context-AllAtLeast}

shortest : repush_context 0 5 (5 ∷ 2 ∷ 4 ∷ []) ≡ 1
unfolding repush_context
shortest = refl

round_robin : push_context 7 3 ≡ 1
unfolding push_context
round_robin = refl

repush_context-AllAtLeast_example :
    let t = repush_context 0 5 (5 ∷ 2 ∷ 4 ∷ []) in
    (t < 3) × AllAtLeast (get_or (5 ∷ 2 ∷ 4 ∷ []) t 0) (5 ∷ 2 ∷ 4 ∷ [])
repush_context-AllAtLeast_example = repush_context-AllAtLeast 0 5 5 (2 ∷ 4 ∷ []) refl (omega arith)
