-- ===== src/TcpHandle/Examples.antt =====
-- A socket with a header of two bytes gets the packets 5 6 and 7, cut in the middle of a packet.
use node_lua.Common.{
  ℕ, ◌≤◌, ◌+◌, ◌≡◌, refl, List, [], ◌∷◌, ◌++◌, Option, none, some, Bool, true, false, ltb, arith,
  replicate,
}
use node_lua.Endian.{little, big, value_low, sign_extend, endian_to_integer, endian_from_integer}
use node_lua.Endian.RoundTrip.{one, two}
use node_lua.RefSessions.{lua_refnil}
use node_lua.TcpHandle.{
  HeadOption, ReadSocket, packet, failed, emsgsize, enomem, ReadEvent, shared, write_read_buffer,
  on_read_alloc, read,
}
use node_lua.TcpHandle.Stream.{IsFraming, in_header, feed_all}
use node_lua.TcpHandle.Stream.Arrival.{
  into_shared, Arrives, idle, more, write_read_buffer-feed_all, Arrives-feed_all,
}
use node_lua.TcpHandle.Stream.Frames.{IsBetween, AllAccepted, frames, frames_round_trip, log}
use node_lua.TcpHandle.Stream.TooLong.{negative_frame-emsgsize}
use node_lua.TcpHandle.Delivery.{InOrder, read-log}
use node_lua.TcpHandle.Write.{
  string, buffer, WriteRequest, WriteSocket, Effects, own, missing, write,
}
use node_lua.TcpHandle.Write.Owned.{Runs, start, writes, holds, IsAnswered, Runs-owned, Runs-cached}
use node_lua.TcpHandle.Write.Wire.{wire, write_all, write_all-read}

abbrev grants : ℕ → Bool
grants n = ltb n 1000

abbrev header : ℕ → HeadOption
header bytes = record { frozen = true; endian = big; bytes = bytes; max = 100 }

-- The context has not asked to read.
abbrev quiet : ℕ → ReadSocket
quiet bytes = record {
  has_noblocking_read = false;
  blocking_read_count = 0;
  read_error = none;
  read_head_buffer = [];
  read_bytes = 0;
  read_buffer = none;
  read_cached_buffers = [];
  read_head_option = header bytes;
  reading = true;
  sent = [];
}

abbrev step : ReadSocket → ReadEvent → Option ReadSocket
step s event = write_read_buffer little grants s event

-- One read is asked for, and the header of the second packet comes with the end of the first.
two_chunks :
    (elim (step (record (quiet 2) { blocking_read_count = 1 }) (shared (0 ∷ 2 ∷ 5 ∷ []))) [
      | none ↦ none
      | some s ↦ step s (shared (6 ∷ 0 ∷ 1 ∷ 7 ∷ []))
    ])
    ≡ some (record (quiet 2) {
      read_cached_buffers = record { cap = 1; bytes = 7 ∷ [] } ∷ [];
      reading = false;
      sent = packet (5 ∷ 6 ∷ []) ∷ [];
    })
unfolding write_read_buffer endian_to_integer sign_extend value_low
two_chunks = refl

no_memory :
    step (quiet 0) (shared (replicate 2000 1))
    ≡ some
        (record (quiet 0) { reading = false; read_error = some enomem; sent = failed enomem ∷ [] })
unfolding write_read_buffer
no_memory = refl

framing : IsFraming (quiet 2)
framing = in_header refl (omega arith) refl

shared_first : on_read_alloc (quiet 2) ≡ none
unfolding on_read_alloc
shared_first = refl

write_read_buffer-feed_all_example :
    write_read_buffer little grants (quiet 2) (shared (0 ∷ 1 ∷ 7 ∷ 0 ∷ []))
    ≡ some (feed_all little grants (quiet 2) (0 ∷ 1 ∷ 7 ∷ 0 ∷ []))
write_read_buffer-feed_all_example =
    write_read_buffer-feed_all little grants (quiet 2) (0 ∷ 1 ∷ 7 ∷ 0 ∷ [])
      (shared (0 ∷ 1 ∷ 7 ∷ 0 ∷ [])) framing (into_shared refl shared_first)

-- A chunk that arrives at the quiet socket.
at_once :
    (bytes : List ℕ)
    → Arrives little grants (quiet 2) bytes (feed_all little grants (quiet 2) bytes)
at_once bytes =
    more [] bytes bytes (shared bytes) (quiet 2) (feed_all little grants (quiet 2) bytes) idle
      (into_shared refl shared_first)
      (write_read_buffer-feed_all little grants (quiet 2) bytes (shared bytes) framing
        (into_shared refl shared_first))
      refl

-- Two bytes of the header's first packet, then the rest.
abbrev half : ReadSocket
half = record (quiet 2) {
  read_head_buffer = 0 ∷ 2 ∷ [];
  read_bytes = 2;
  read_buffer = some (record { cap = 2; bytes = 5 ∷ [] });
}

abbrev kept : ReadSocket
kept = record (quiet 2) { read_cached_buffers = record { cap = 2; bytes = 5 ∷ 6 ∷ [] } ∷ [] }

in_two : Arrives little grants (quiet 2) (0 ∷ 2 ∷ 5 ∷ 6 ∷ []) kept
unfolding write_read_buffer on_read_alloc endian_to_integer sign_extend value_low
in_two =
    more (0 ∷ 2 ∷ 5 ∷ []) (6 ∷ []) (0 ∷ 2 ∷ 5 ∷ 6 ∷ []) (shared (6 ∷ [])) half kept
      (more [] (0 ∷ 2 ∷ 5 ∷ []) (0 ∷ 2 ∷ 5 ∷ []) (shared (0 ∷ 2 ∷ 5 ∷ [])) (quiet 2) half idle
        (into_shared refl refl) refl refl)
      (into_shared refl refl) refl refl

Arrives-feed_all_example : kept ≡ feed_all little grants (quiet 2) (0 ∷ 2 ∷ 5 ∷ 6 ∷ [])
Arrives-feed_all_example =
    Arrives-feed_all little grants (quiet 2) (0 ∷ 2 ∷ 5 ∷ 6 ∷ []) kept framing in_two

between : IsBetween (quiet 2)
between = record {
  alive = refl;
  width = two;
  narrow = omega arith;
  no_header = refl;
  no_packet = refl;
  in_order = λ _. refl;
}

one_byte-IsBetween : IsBetween (quiet 1)
one_byte-IsBetween = record {
  alive = refl;
  width = one;
  narrow = omega arith;
  no_header = refl;
  no_packet = refl;
  in_order = λ _. refl;
}

abbrev two_payloads : List (List ℕ)
two_payloads = (5 ∷ 6 ∷ []) ∷ (7 ∷ []) ∷ []

accepted : AllAccepted little grants (header 2) two_payloads
accepted = (
  record { short = omega arith; positive = omega arith; below = omega arith; granted = refl },
  (record { short = omega arith; positive = omega arith; below = omega arith; granted = refl }, tt),
)

frames_round_trip_example :
    log (feed_all little grants (quiet 2) (frames little grants (header 2) two_payloads))
    ≡ packet (5 ∷ 6 ∷ []) ∷ packet (7 ∷ []) ∷ []
frames_round_trip_example =
    frames_round_trip little grants (quiet 2) two_payloads
      (feed_all little grants (quiet 2) (frames little grants (header 2) two_payloads)) between
      accepted (at_once (frames little grants (header 2) two_payloads))

-- The header of one byte for a payload of 200 bytes, and the first two of these.
abbrev refused_bytes : List ℕ
refused_bytes = endian_from_integer little 200 1 big ++ (3 ∷ 3 ∷ [])

refused-Arrives :
    (framed : IsFraming (quiet 1)) (from_shared : on_read_alloc (quiet 1) ≡ none)
    → Arrives little grants (quiet 1) refused_bytes (feed_all little grants (quiet 1) refused_bytes)
refused-Arrives framed from_shared =
    more [] refused_bytes refused_bytes (shared refused_bytes) (quiet 1)
      (feed_all little grants (quiet 1) refused_bytes) idle (into_shared refl from_shared)
      (write_read_buffer-feed_all little grants (quiet 1) refused_bytes (shared refused_bytes)
        framed (into_shared refl from_shared))
      refl

negative_frame-emsgsize_example :
    (log (feed_all little grants (quiet 1) refused_bytes) ≡ failed emsgsize ∷ [])
    × ((feed_all little grants (quiet 1) refused_bytes).read_error ≡ some emsgsize)
unfolding on_read_alloc
negative_frame-emsgsize_example =
    negative_frame-emsgsize little grants (quiet 1) (replicate 200 3) (3 ∷ 3 ∷ [])
      (feed_all little grants (quiet 1) refused_bytes) one_byte-IsBetween (omega arith)
      (omega arith) (omega arith) (refused-Arrives (in_header refl (omega arith) refl) refl)

read-log_example :
    (log (read none false true kept) ≡ packet (5 ∷ 6 ∷ []) ∷ [])
    × InOrder (read none false true kept)
read-log_example = read-log kept false true refl

-- A write that succeeds, one that finds no socket, and the callback of the first.
abbrev writer : WriteSocket
writer = record {
  write_error = none;
  write_cached_reqs = 0;
  write_head_option = header 2;
  handed = [];
  in_flight = [];
}

abbrev first : WriteRequest
first = record { source = 8; session = 3; payload = string (5 ∷ 6 ∷ []) }

abbrev second : WriteRequest
second = record { source = 8; session = lua_refnil; payload = buffer (7 ∷ []) }

abbrev no_effects : Effects
no_effects = record { released = []; answers = [] }

abbrev sent_first : WriteSocket × Effects
sent_first = write little own none first (writer, no_effects)

abbrev lost_second : WriteSocket × Effects
lost_second = write little missing none second sent_first

writing : Runs little writer no_effects (first ∷ second ∷ []) lost_second
writing =
    writes (first ∷ []) missing none second sent_first
      (writes [] own none first (writer, no_effects) start)

Runs-owned_example :
    (holds little (λ r. r.session) lost_second ≡ 0 + (3 + (lua_refnil + 0)))
    × IsAnswered lost_second.1
Runs-owned_example =
    Runs-owned little (λ r. r.session) writer no_effects (first ∷ second ∷ []) lost_second.0
      lost_second.1 refl writing

Runs-cached_example : lost_second.0.write_cached_reqs ≤ 32
Runs-cached_example =
    Runs-cached little writer no_effects (first ∷ second ∷ []) lost_second.0 lost_second.1
      (omega arith) writing

write_all-read_example :
    log (
      feed_all little grants
        (quiet 2)
        (wire (write_all little grants (first ∷ second ∷ []) writer).handed))
    ≡ packet (5 ∷ 6 ∷ []) ∷ packet (7 ∷ []) ∷ []
write_all-read_example =
    write_all-read little grants writer (first ∷ second ∷ []) (quiet 2)
      (feed_all little grants (quiet 2)
        (wire (write_all little grants (first ∷ second ∷ []) writer).handed))
      refl refl refl between accepted
      (at_once (wire (write_all little grants (first ∷ second ∷ []) writer).handed))
