-- ===== src/Context/Examples.antt =====
-- A new context, held once by its creator, that gets messages and is served.
use node_lua.Common.{ℕ, ◌≡◌, refl, List, [], ◌∷◌, none, true, false, arith}
use node_lua.MessageQueue.Inv.{IsValid}
use node_lua.Context.{init, on_registered, on_retired}
use node_lua.Context.Schedule.{Scheduled, send, here, sent}
use node_lua.Context.Schedule.Held.{IsHeld, IsPlaced, Reaches-IsPlaced}
use node_lua.Context.Schedule.Serve.{Round}

-- Context 3 with the messages 10, 11 and 12 in a ring of four slots.
abbrev busy : Scheduled ℕ
busy = record {
  context = record {
    parent = 1;
    handle = 3;
    inited = true;
    ref = 2;
    processing = true;
    queue = record { cap = 4; head = 3; tail = 2; size = 3; queue = 11 ∷ 12 ∷ 0 ∷ 10 ∷ [] };
  };
  sending = 1;
  pushing = 0;
  queued = 0;
  running = 1;
  leaving = 0;
}

busy-IsValid : IsValid busy.context.queue
busy-IsValid = record {
  log = 2;
  power = refl;
  small = omega arith;
  storage = refl;
  head_in = omega arith;
  size_in = omega arith;
  tail_at = refl;
}

busy-IsHeld : IsHeld 0 busy
busy-IsHeld = record { valid = busy-IsValid; once = refl; idle = λ e. absurd (cc) }

abbrev after_send : Scheduled ℕ
after_send = record (send 0 busy 13).1 { sending = 0 }

-- A handle is given once, and a context that only its handle refers to goes with it.
registered_once : on_registered (on_registered busy.context 9 9) 8 8 ≡ busy.context
unfolding on_registered
registered_once = refl

retired : on_retired (record busy.context { ref = 1 }) ≡ none
unfolding on_retired
retired = refl

-- A new context is processing before anyone sends to it.
new_is_processing : (init {A = ℕ} 0).processing ≡ true
unfolding init
new_is_processing = refl

Reaches-IsPlaced_example : IsPlaced 0 after_send
Reaches-IsPlaced_example =
    Reaches-IsPlaced 0 busy after_send busy-IsHeld (sent busy 13 here (omega arith))

-- A message comes while the first two are handled, the second after the context was retired.
abbrev rounds : List (Round ℕ)
rounds =
    record { arrivals = []; queue_length = 0; valid_before = true; valid = true }
    ∷ record { arrivals = 13 ∷ []; queue_length = 0; valid_before = true; valid = false }
    ∷ []
