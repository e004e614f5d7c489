-- ===== src/TcpHandle/Write.antt =====
-- src/uv_tcp_handle.h and src/uv_tcp_handle.cpp: the writing side of a TCP socket. `handed` is what
-- `uv_write` was given, one entry for each call that succeeded, and `in_flight` are the requests
-- that libuv has not called back for. The messages to the contexts, and the requests whose string or
-- buffer has been freed, are kept in order in `Effects`. A `write_uv_request_t` in the cache is memory
-- with no contents, so the cache is how many there are.
pub mod Owned
pub mod Wire
use node_lua.Common.{
  ℕ, zero, suc, ◌+◌, ◌-◌, List, [], ◌∷◌, ◌++◌, Option, none, some, Bool, true, false, not, ltb, leb,
  ◌==◌, if◌then◌else◌, length,
}
use node_lua.Endian
use node_lua.Endian.{endian_from_integer}
use node_lua.RefSessions.{lua_refnil}
use node_lua.TcpHandle.{HeadOption, check_head_option_max, UvError}

-- `m_string` with `m_length` above 0, or `m_buffer`.
pub data Payload : Type 0 where
  string buffer : List ℕ → Payload

abbrev pub data_of : Payload → List ℕ
data_of (string bytes) = bytes
data_of (buffer bytes) = bytes

-- What `write` reads of a request_tcp_write_t, and what a write_uv_request_t keeps of it.
pub record WriteRequest : Type 0 where
  pub source : ℕ
  pub session : ℕ
  pub payload : Payload

-- The error codes of a write: none, NL_ETCPWRITELONG, NL_ETCPNOWSHARED, and those of libuv.
pub data WriteResult : Type 0 where
  ok too_long no_shared : WriteResult
  broken : UvError → WriteResult

pub record WriteSocket : Type 0 where
  pub write_error : Option UvError
  pub write_cached_reqs : ℕ
  pub write_head_option : HeadOption
  pub handed : List (List ℕ)
  pub in_flight : List WriteRequest

-- RESPONSE_TCP_WRITE
pub record Answer : Type 0 where
  pub source : ℕ
  pub session : ℕ
  pub result : WriteResult

pub record Effects : Type 0 where
  pub released : List WriteRequest
  pub answers : List Answer

-- TCP_WRITE_UV_REQUEST_CACHE_MAX
abbrev pub tcp_write_uv_request_cache_max : ℕ
tcp_write_uv_request_cache_max = 32

abbrev pub get_write_cached_request : WriteSocket → WriteSocket
get_write_cached_request s = record s { write_cached_reqs = s.write_cached_reqs - 1 }

-- One request is freed when the cache is full.
abbrev pub put_write_cached_request : WriteSocket → WriteSocket
put_write_cached_request s = record s {
  write_cached_reqs =
      (if leb tcp_write_uv_request_cache_max s.write_cached_reqs
        then s.write_cached_reqs - 1
        else s.write_cached_reqs)
      + 1;
}

abbrev result_of : Option UvError → WriteResult
result_of none = ok
result_of (some e) = broken e

-- The string or buffer is freed, and the context that asked for an answer gets it.
abbrev pub settle : WriteRequest → WriteResult → Effects → Effects
settle r result w = record {
  released = w.released ++ (r ∷ []);
  answers =
      w.answers
      ++ (if not (r.session == lua_refnil)
          then record { source = r.source; session = r.session; result = result } ∷ []
          else []);
}

-- on_write: `status` is the error that libuv reports, if any.
pub on_write : Option UvError → WriteRequest → WriteSocket × Effects → WriteSocket × Effects
on_write none r (s, w) = (put_write_cached_request s, settle r ok w)
on_write (some e) r (s, w) =
    (put_write_cached_request (record s { write_error = some e }), settle r (broken e) w)

-- Which socket `write` finds: that of the request, the shared one of the descriptor, or none.
pub data Target : Type 0 where
  own shared missing : Target

module _ (env : Endian.Order) where
  -- The buffers that `uv_write` gets: the header, if there is one, and the data.
  abbrev pub uv_bufs : HeadOption → List ℕ → List ℕ
  uv_bufs option bytes =
      if ltb 0 option.bytes
      then endian_from_integer env (length bytes) option.bytes option.endian ++ bytes
      else bytes

  -- The call of `uv_write`, which fails with the error in its first argument, if there is one.
  pub start_write : Option UvError → WriteRequest → WriteSocket → WriteSocket × WriteResult
  start_write none r s = (
    record s {
      handed = s.handed ++ (uv_bufs s.write_head_option (data_of r.payload) ∷ []);
      in_flight = s.in_flight ++ (r ∷ []);
    },
    ok,
  )
  start_write (some e) r s =
      (put_write_cached_request (record s { write_error = some e }), broken e)

  pub write_handle_in :
      Option UvError → Option UvError → WriteRequest → WriteSocket → WriteSocket × WriteResult
  unfolding start_write
  write_handle_in none result r s = start_write result r (get_write_cached_request s)
  write_handle_in (some e) result r s = (s, broken e)

  -- write_handle
  pub write_handle : Option UvError → WriteRequest → WriteSocket → WriteSocket × WriteResult
  unfolding write_handle_in
  write_handle result r s = write_handle_in s.write_error result r s

  -- The end of `write`, by the error code.
  pub respond : WriteRequest → WriteSocket × WriteResult → Effects → WriteSocket × Effects
  respond r (s, ok) w = (s, w)
  respond r (s, err) w = (s, settle r err w)

  pub write_to : Target → Option UvError → WriteRequest → WriteSocket → WriteSocket × WriteResult
  unfolding write_handle
  write_to own result r s = write_handle result r s
  write_to shared result r s =
      if not (check_head_option_max s.write_head_option (length (data_of r.payload)))
      then (s, too_long)
      else write_handle result r s
  write_to missing result r s = (s, no_shared)

  -- write, on the socket that it finds.
  pub write : Target → Option UvError → WriteRequest → WriteSocket × Effects → WriteSocket × Effects
  unfolding write_to respond
  write target result r (s, w) = respond r (write_to target result r s) w
