-- ===== src/TcpHandle/Listen.antt =====
-- src/uv_tcp_handle.h and src/uv_tcp_handle.cpp: the connections of a listening socket. `sent` counts
-- the clients sent to the context, `closed` the clients closed at once, and `errors` are the errors
-- of the listening socket that the context is told of.
pub mod Served
mod Examples
use node_lua.Common.{
  ℕ, zero, suc, ◌+◌, ◌-◌, List, [], ◌∷◌, ◌++◌, Option, none, some, Bool, true, false, not, ◌&&◌,
  ◌||◌, ltb, ◌==◌, if◌then◌else◌,
}
use node_lua.Common.Words.{add32}
use node_lua.RefSessions.{lua_refnil}
use node_lua.TcpHandle.{UvError}

pub record ListenSocket : Type 0 where
  pub lua_ref : ℕ
  pub has_accept_event : Bool
  pub has_noblocking_accept : Bool
  pub blocking_accept_count : ℕ
  pub sent : ℕ
  pub closed : ℕ
  pub errors : List UvError

-- What `uv_accept` and `context_send` come to: the first fails, the second does, or neither.
pub data Outcome : Type 0 where
  not_accepted not_sent taken : Outcome

abbrev pub wants : ListenSocket → Bool
wants s = s.has_noblocking_accept || ltb 0 s.blocking_accept_count

-- The test of `try_accept`.
abbrev pub is_ready : ListenSocket → Bool
is_ready s = wants s && (not (s.lua_ref == lua_refnil) && s.has_accept_event)

pub take_client : Outcome → ListenSocket → ListenSocket
take_client not_accepted s = record s { closed = s.closed + 1 }
take_client not_sent s = record s { closed = s.closed + 1 }
take_client taken s = record s {
  sent = s.sent + 1;
  blocking_accept_count =
      if ltb 0 s.blocking_accept_count
      then s.blocking_accept_count - 1
      else s.blocking_accept_count;
}

pub try_accept : Outcome → ListenSocket → ListenSocket
unfolding take_client
try_accept outcome s =
    if is_ready s then take_client outcome (record s { has_accept_event = false }) else s

-- on_accept: `status` is the error that libuv reports, if any.
pub on_accept : Option UvError → Bool → Outcome → ListenSocket → ListenSocket
unfolding try_accept
on_accept none closing outcome s = try_accept outcome (record s { has_accept_event = true })
on_accept (some e) closing outcome s =
    if not closing then record s { errors = s.errors ++ (e ∷ []) } else s

abbrev pub want_client : Bool → ListenSocket → ListenSocket
want_client blocking s =
    if blocking
    then record s { blocking_accept_count = add32 s.blocking_accept_count 1 }
    else record s { has_noblocking_accept = true }

pub accept : Bool → Outcome → ListenSocket → ListenSocket
unfolding try_accept
accept blocking outcome s = try_accept outcome (want_client blocking s)
