-- ===== src/TcpHandle.antt =====
-- src/uv_tcp_handle.h and src/uv_tcp_handle.cpp: the reading side of a TCP socket. libuv hands over
-- bytes; the socket cuts them into packets by a length header and sends each to its context, or
-- keeps it until the context asks to read. `sent` are the messages to the context in order, and
-- `reading` says whether `uv_read_start` is in force. A packet is a buffer of its one owner, with
-- its capacity and contents, since `buffer_append` to such a buffer changes nothing else.
pub mod Stream
pub mod Delivery
pub mod Write
pub mod Listen
pub mod Options
mod Examples
use node_lua.Common.{
  ℕ, zero, suc, ◌+◌, ◌-◌, ◌*◌, ◌%◌, ◌^◌, List, [], ◌∷◌, ◌++◌, map, Option, none, some, Bool, true,
  false, not, ◌&&◌, ◌||◌, ltb, leb, ◌==◌, if◌then◌else◌, length, take, drop,
}
use node_lua.Common.Words.{add32, sub32}
use node_lua.Buffer.{max_capacity}
use node_lua.Endian.{little, endian_to_integer}
use node_lua.Endian

-- head_option_t
pub record HeadOption : Type 0 where
  pub frozen : Bool
  pub endian : Endian.Order
  pub bytes : ℕ
  pub max : ℕ

abbrev pub init_head_option : HeadOption
init_head_option = record { frozen = false; endian = little; bytes = 0; max = 0 }

abbrev pub check_head_option_max : HeadOption → ℕ → Bool
check_head_option_max option len = (option.bytes == 0) || leb (len % 2 ^ 32) option.max

-- The `uv_err_code`s that the code names, and any other that libuv reports.
pub data UvError : Type 0 where
  enomem emsgsize : UvError
  other : ℕ → UvError

pub record Packet : Type 0 where
  pub cap : ℕ
  pub bytes : List ℕ

-- What RESPONSE_TCP_READ carries.
pub data Response : Type 0 where
  packet : List ℕ → Response
  failed : UvError → Response

-- `m_read_head_buffer` stands for the first `m_read_head_bytes` bytes of that array.
pub record ReadSocket : Type 0 where
  pub has_noblocking_read : Bool
  pub blocking_read_count : ℕ
  pub read_error : Option UvError
  pub read_head_buffer : List ℕ
  pub read_bytes : ℕ
  pub read_buffer : Option Packet
  pub read_cached_buffers : List Packet
  pub read_head_option : HeadOption
  pub reading : Bool
  pub sent : List Response

abbrev pub read_start_state : ReadSocket → Bool
read_start_state s = s.has_noblocking_read || ltb 0 s.blocking_read_count

abbrev pub packet_of : Packet → Response
packet_of p = packet p.bytes

-- buffer_write_size
abbrev pub write_size : Option Packet → ℕ
write_size none = 0
write_size (some p) = p.cap - length p.bytes

-- The decrement of `m_blocking_read_count`.
abbrev pub count_down : ReadSocket → ReadSocket
count_down s = record s {
  blocking_read_count = if ltb 0 s.blocking_read_count then s.blocking_read_count - 1 else 0;
}

-- `uv_read_stop` if the context wants no more.
abbrev stop_if_idle : ReadSocket → ReadSocket
stop_if_idle s = record s { reading = if read_start_state s then s.reading else false }

-- What `write_read_buffer_finish` does with a finished packet, by `read_start_state()`.
pub deliver : Bool → ReadSocket → Packet → ReadSocket
deliver true s p = stop_if_idle (count_down (record s { sent = s.sent ++ (packet_of p ∷ []) }))
deliver false s p = record s { read_cached_buffers = s.read_cached_buffers ++ (p ∷ []) }

-- The next header begins, if there are headers.
pub rewind : Bool → ReadSocket → ReadSocket
rewind true s = record s { read_head_buffer = []; read_bytes = 0 }
rewind false s = s

-- clear_read_cached_buffers
pub clear_read_cached_buffers : ReadSocket → ReadSocket
clear_read_cached_buffers s = record s { read_buffer = none; read_cached_buffers = [] }

pub trigger_read_error : ReadSocket → UvError → ReadSocket
trigger_read_error s e = record s {
  sent = s.sent ++ (map packet_of s.read_cached_buffers ++ (failed e ∷ []));
  read_cached_buffers = [];
  read_buffer = none;
  read_error = some e;
}

-- write_read_buffer_finish(UV_OK), with the finished packet `p` in `m_read_buffer`.
pub finish_packet : ReadSocket → Packet → ReadSocket
unfolding deliver rewind
finish_packet s p =
    rewind (ltb 0 s.read_head_option.bytes)
      (record (deliver (read_start_state s) s p) { read_buffer = none })

finish_error_in : Option UvError → ReadSocket → UvError → ReadSocket
unfolding trigger_read_error clear_read_cached_buffers
finish_error_in none s e = record (trigger_read_error s e) { reading = false }
finish_error_in (some _) s e = clear_read_cached_buffers s

-- write_read_buffer_finish of an error.
pub finish_error : ReadSocket → UvError → ReadSocket
unfolding finish_error_in
finish_error s e = finish_error_in s.read_error s e

-- `if (buffer_write_size(m_read_buffer) == 0) write_read_buffer_finish(UV_OK)` on the packet `p`.
pub complete : ReadSocket → Packet → ReadSocket
unfolding finish_packet
complete s p =
    if p.cap - length p.bytes == 0 then finish_packet s p else record s { read_buffer = some p }

abbrev pub put : Packet → List ℕ → Packet
put p bytes = record p { bytes = p.bytes ++ bytes }

-- What libuv hands to `on_read`: nothing, an error, bytes in the shared buffer, or bytes that it
-- has put behind those of the unfinished packet.
pub data ReadEvent : Type 0 where
  nothing : ReadEvent
  broken : UvError → ReadEvent
  shared : List ℕ → ReadEvent
  direct : List ℕ → ReadEvent

-- Whether the loop goes on after a header.
pub data Step : Type 0 where
  stop : ReadSocket → Step
  next : ReadSocket → Packet → Step

module _ (env : Endian.Order) (grants : ℕ → Bool) where
  -- buffer_new of capacity `n`.
  pub new_packet : ℕ → List ℕ → Option Packet
  new_packet n bytes =
      if not (leb max_capacity n) && grants n
      then some (record { cap = n; bytes = bytes })
      else none

  -- The header is complete.
  pub begin_packet : ReadSocket → Step
  unfolding new_packet finish_error
  begin_packet s =
      let option = s.read_head_option in
      let n = endian_to_integer env s.read_head_buffer option.bytes option.endian % 2 ^ 32 in
      let s' = record s { read_bytes = n } in
      if leb n option.max
      then (elim (new_packet n []) [
        | none ↦ stop (finish_error (record s' { read_buffer = none }) enomem)
        | some p ↦ next s' p
      ])
      else stop (finish_error s' emsgsize)

  -- The second half of the loop's body, with the packet `p` in `m_read_buffer`.
  pub fill :
      (ReadSocket → List ℕ → Option ReadSocket) → ReadSocket → Packet → List ℕ → Option ReadSocket
  unfolding complete
  fill again s p bytes =
      let unread = p.cap - length p.bytes in
      if ltb 0 unread && ltb 0 (length bytes)
      then (if leb unread (length bytes)
          then again (complete s (put p (take unread bytes))) (drop unread bytes)
          else some (record s { read_buffer = some (put p bytes) }))
      else again (complete s p) bytes

  -- With a complete header `m_read_buffer` is valid; `none` there is a fault.
  pub fill_buffer :
      (ReadSocket → List ℕ → Option ReadSocket)
      → Option Packet
      → ReadSocket
      → List ℕ
      → Option ReadSocket
  unfolding fill
  fill_buffer again none s bytes = none
  fill_buffer again (some p) s bytes = fill again s p bytes

  -- The loop of `write_read_buffer` on bytes in the shared buffer; `none` when the fuel runs out.
  pub receive : ℕ → ReadSocket → List ℕ → Option ReadSocket
  unfolding begin_packet fill_buffer
  receive fuel s [] = some s
  receive zero s (b ∷ bs) = none
  receive (suc fuel) s (b ∷ bs) =
      let unread = s.read_head_option.bytes - length s.read_head_buffer in
      elim (ltb 0 unread) [
        | true ↦ elim (leb unread (length (b ∷ bs))) [
          | true ↦
              elim (begin_packet
                (record s { read_head_buffer = s.read_head_buffer ++ take unread (b ∷ bs) })) [
                  | stop s' ↦ some s'
                  | next s' p ↦ fill (receive fuel) s' p (drop unread (b ∷ bs))
                ]
          | false ↦ some (record s { read_head_buffer = s.read_head_buffer ++ (b ∷ bs) })
        ]
        | false ↦ elim (s.read_head_option.bytes == 0) [
          | true ↦ elim (new_packet (length (b ∷ bs)) (b ∷ bs)) [
            | none ↦ some (finish_error (record s { read_buffer = none }) enomem)
            | some p ↦ some (finish_packet s p)
          ]
          | false ↦ fill_buffer (receive fuel) s.read_buffer s (b ∷ bs)
        ]
      ]

  -- Bytes that libuv has put into the unfinished packet.
  pub fill_direct : Option Packet → ReadSocket → List ℕ → Option ReadSocket
  unfolding complete
  fill_direct none s bytes = none
  fill_direct (some p) s bytes =
      some (complete s (if leb (length p.bytes + length bytes) p.cap then put p bytes else p))

  -- on_read and write_read_buffer. Each round of the loop takes a byte or ends it.
  pub write_read_buffer : ReadSocket → ReadEvent → Option ReadSocket
  unfolding receive fill_direct finish_error
  write_read_buffer s nothing = some s
  write_read_buffer s (broken e) = some (finish_error s e)
  write_read_buffer s (shared bytes) = receive (length bytes) s bytes
  write_read_buffer s (direct bytes) = fill_direct s.read_buffer s bytes

-- LARGE_UNCOMPLETE_LIMIT
abbrev pub large_uncomplete_limit : ℕ
large_uncomplete_limit = 1 * 1024

-- on_read_alloc: how many bytes may go into the unfinished packet, or `none` for the shared buffer.
pub on_read_alloc : ReadSocket → Option ℕ
on_read_alloc s =
    if ltb (write_size s.read_buffer) large_uncomplete_limit
    then none
    else some (write_size s.read_buffer)

-- The loop of `read` over the cached packets, and whether it returned from there.
pub send_cached : List Packet → ReadSocket → Bool × ReadSocket
send_cached [] s = (false, s)
send_cached (p ∷ ps) s =
    let s' =
      count_down (record s { sent = s.sent ++ (packet_of p ∷ []); read_cached_buffers = ps }) in
    if read_start_state s' then send_cached ps s' else (true, s')

-- The end of `read`: `start` is the error of `uv_read_start`, if any.
pub start_reading : Option UvError → Bool → ReadSocket → ReadSocket
unfolding trigger_read_error
start_reading none closing s = record s { reading = true }
start_reading (some e) closing s = if not closing then trigger_read_error s e else s

abbrev pub want : Bool → ReadSocket → ReadSocket
want blocking s =
    if blocking
    then record s { blocking_read_count = add32 s.blocking_read_count 1 }
    else record s { has_noblocking_read = true }

-- The rest of `read`, unless it has returned from the loop.
pub finish_read : Option UvError → Bool → Bool → Bool × ReadSocket → ReadSocket
unfolding start_reading
finish_read start closing read_started (true, s) = s
finish_read start closing read_started (false, s) =
    if not read_started then start_reading start closing s else s

-- read
pub read : Option UvError → Bool → Bool → ReadSocket → ReadSocket
unfolding send_cached finish_read
read start closing blocking s = elim s.read_error [
  | some _ ↦ s
  | none ↦
      finish_read start closing (read_start_state s)
        (send_cached s.read_cached_buffers (want blocking s))
]
