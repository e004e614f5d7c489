-- ===== src/Network/Examples.antt =====
-- Requests in a pipe that is cut in pieces.
use node_lua.Common.{◌≡◌, refl, List, [], ◌∷◌, arith}
use node_lua.Network.{Request, Turn, ready, serve_pipe, polls}
use node_lua.Network.Order.{sent, InOrder, polls-InOrder}
use node_lua.Network.Progress.{quiet, serve_pipe-all}

abbrev two_requests : List Request
two_requests = record { type = 6; body = 1 ∷ 2 ∷ [] } ∷ record { type = 11; body = [] } ∷ []

-- The first request comes in two pieces and the second in one, and `recv` gives a byte at a time.
abbrev pieces : List Turn
pieces =
    ready (2 ∷ 6 ∷ []) 0
    ∷ ready [] 0
    ∷ ready [] 0
    ∷ ready (1 ∷ 2 ∷ []) 0
    ∷ ready [] 0
    ∷ ready (0 ∷ 11 ∷ []) 0
    ∷ ready [] 5
    ∷ []

serve_pipe_run : (serve_pipe 4 [] pieces).handled ≡ two_requests
unfolding serve_pipe
serve_pipe_run = refl

polls-InOrder_example : InOrder [] two_requests (polls 4 8 [] pieces)
polls-InOrder_example = polls-InOrder 4 [] 8 [] pieces two_requests refl

serve_pipe-all_example :
    (serve_pipe 1 (sent two_requests) (quiet (0 ∷ 0 ∷ 0 ∷ 1 ∷ 0 ∷ 2 ∷ []))).handled ≡ two_requests
serve_pipe-all_example =
    serve_pipe-all 1 two_requests (0 ∷ 0 ∷ 0 ∷ 1 ∷ 0 ∷ 2 ∷ []) refl (omega arith)

-- What stands behind REQUEST_EXIT is handled in the same call or not at all.
exit_run :
    (serve_pipe 1
      (sent (record { type = 0; body = [] } ∷ two_requests))
      (quiet (9 ∷ 9 ∷ 9 ∷ 9 ∷ 9 ∷ 9 ∷ 9 ∷ 9 ∷ []))).handled
    ≡ record { type = 0; body = [] } ∷ []
unfolding serve_pipe
exit_run = refl
