-- ===== src/TcpHandle/Listen/Examples.antt =====
-- One accept and one connection.
use node_lua.Common.{◌≡◌, refl, [], none, true, false, arith}
use node_lua.TcpHandle.Listen.{ListenSocket, taken, on_accept, accept}
use node_lua.TcpHandle.Listen.Served.{listening, reported, asked, IsServed, Listens-IsServed}

abbrev listener : ListenSocket
listener = record {
  lua_ref = 2;
  has_accept_event = false;
  has_noblocking_accept = false;
  blocking_accept_count = 0;
  sent = 0;
  closed = 0;
  errors = [];
}

fresh_listener : IsServed listener 0 0
fresh_listener = record {
  named = refl;
  settled = refl;
  blocking = refl;
  met = refl;
  arrived = refl;
}

one_client : (on_accept none false taken (accept true taken listener)).sent ≡ 1
unfolding on_accept accept
one_client = refl

no_event : (accept true taken listener).has_accept_event ≡ false
unfolding accept
no_event = refl

Listens-IsServed_example : IsServed (on_accept none false taken (accept true taken listener)) 1 1
Listens-IsServed_example =
    Listens-IsServed listener 1 1 (on_accept none false taken (accept true taken listener))
      fresh_listener
      (reported 1 0 (accept true taken listener) false taken
        (asked 0 0 listener taken listening (omega arith)) no_event)
