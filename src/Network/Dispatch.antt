-- ===== src/Network/Dispatch.antt =====
-- src/request.h and `process_request` of src/network.cpp: which handler a request's type byte selects, and
-- the request that stops the network thread.
use node_lua.Common.{ℕ, zero, suc, ◌≡◌, refl, List, [], Option, none, some, Bool, true, false}
use node_lua.Network.{send_request}

-- The handlers of network_t.
pub data Handler : Type 0 where
  request_exit request_tcp_listen request_tcp_listens request_tcp_accept request_tcp_connect :
      Handler
  request_tcp_connects request_tcp_write request_tcp_read request_udp_open request_udp_write :
      Handler
  request_udp_read request_handle_option request_handle_close request_timer_start : Handler

-- The values of `request_type`, in the order of the enumeration, each under the handler's name.
abbrev pub request_type : Handler → ℕ
request_type request_exit = 0
request_type request_tcp_listen = 1
request_type request_tcp_listens = 2
request_type request_tcp_accept = 3
request_type request_tcp_connect = 4
request_type request_tcp_connects = 5
request_type request_tcp_read = 6
request_type request_tcp_write = 7
request_type request_udp_open = 8
request_type request_udp_read = 9
request_type request_udp_write = 10
request_type request_handle_option = 11
request_type request_handle_close = 12
request_type request_timer_start = 13

-- process_request: the case of the switch; an unknown type is dropped.
abbrev pub process_request : ℕ → Option Handler
process_request zero = some request_exit
process_request (suc zero) = some request_tcp_listen
process_request (suc (suc zero)) = some request_tcp_listens
process_request (suc (suc (suc zero))) = some request_tcp_accept
process_request (suc (suc (suc (suc zero)))) = some request_tcp_connect
process_request (suc (suc (suc (suc (suc zero))))) = some request_tcp_connects
process_request (suc (suc (suc (suc (suc (suc (suc zero))))))) = some request_tcp_write
process_request (suc (suc (suc (suc (suc (suc zero)))))) = some request_tcp_read
process_request (suc (suc (suc (suc (suc (suc (suc (suc zero)))))))) = some request_udp_open
process_request (suc (suc (suc (suc (suc (suc (suc (suc (suc (suc zero)))))))))) =
    some request_udp_write
process_request (suc (suc (suc (suc (suc (suc (suc (suc (suc zero))))))))) = some request_udp_read
process_request (suc (suc (suc (suc (suc (suc (suc (suc (suc (suc (suc zero))))))))))) =
    some request_handle_option
process_request (suc (suc (suc (suc (suc (suc (suc (suc (suc (suc (suc (suc zero)))))))))))) =
    some request_handle_close
process_request (suc (suc (suc (suc (suc (suc (suc (suc (suc (suc (suc (suc (suc zero))))))))))))) =
    some request_timer_start
process_request _ = none

-- stop: with `m_exiting`, its new value and what is sent.
abbrev pub network_stop : Bool → Bool × List ℕ
network_stop true = (true, [])
network_stop false = (true, send_request (record { type = request_type request_exit; body = [] }))

-- A request reaches the handler of its type.
pub process_request-request_type : (h : Handler) → process_request (request_type h) ≡ some h
process_request-request_type request_exit = refl
process_request-request_type request_tcp_listen = refl
process_request-request_type request_tcp_listens = refl
process_request-request_type request_tcp_accept = refl
process_request-request_type request_tcp_connect = refl
process_request-request_type request_tcp_connects = refl
process_request-request_type request_tcp_write = refl
process_request-request_type request_tcp_read = refl
process_request-request_type request_udp_open = refl
process_request-request_type request_udp_write = refl
process_request-request_type request_udp_read = refl
process_request-request_type request_handle_option = refl
process_request-request_type request_handle_close = refl
process_request-request_type request_timer_start = refl
