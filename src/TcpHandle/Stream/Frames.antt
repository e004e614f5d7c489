-- ===== src/TcpHandle/Stream/Frames.antt =====
-- What a socket writes with a length header, another one reads as the same packets.
use native.Mathlib.Nat.{mod-eq_of_lt}
use node_lua.Common.{
  ℕ, ◌-◌, ◌*◌, ◌%◌, ◌^◌, ◌<◌, ◌≤◌, ◌≡◌, refl, sym, ap, subst, ◌∙◌, List, [], ◌∷◌, ◌++◌, append-nil,
  append_assoc, map-append, map, none, some, Bool, true, false, leb, length, arith, eq→==, le→leb,
  lt→ltb, lt→leb, not, ◌&&◌,
}
use node_lua.Endian
use node_lua.Endian.{endian_to_integer, endian_from_integer}
use node_lua.Endian.RoundTrip.{
  IsWidth, one, two, four, eight, endian_round_trip, length-endian_from_integer,
}
use node_lua.Buffer.{max_capacity}
use node_lua.TcpHandle.{
  ReadSocket, Packet, HeadOption, stop, next, put, complete, finish_packet, begin_packet,
  new_packet, deliver, rewind, packet_of, packet, Response, read_start_state,
}
use node_lua.TcpHandle.Stream.{IsFraming, in_header, after_header, feed_all, feed_all-append}
use node_lua.TcpHandle.Stream.Parts.{
  feed_header_all, feed_packet_all, complete_lacks, complete_over,
}
use node_lua.TcpHandle.Stream.Arrival.{Arrives, Arrives-feed_all}

-- The messages to the context, sent or still kept.
abbrev pub log : ReadSocket → List Response
log s = s.sent ++ map packet_of s.read_cached_buffers

pub width_pos : {n : ℕ} → IsWidth n → 0 < n
width_pos one = omega arith
width_pos two = omega arith
width_pos four = omega arith
width_pos eight = omega arith

-- Between two frames of a stream with a header of a known width, which fits into the four bytes of
-- `m_read_head_buffer`. While the context wants packets
-- none is kept.
pub record IsBetween (s : ReadSocket) : Type 0 where
  pub alive : s.read_error ≡ none
  pub width : IsWidth s.read_head_option.bytes
  pub narrow : s.read_head_option.bytes ≤ 4
  pub no_header : s.read_head_buffer ≡ []
  pub no_packet : s.read_buffer ≡ none
  pub in_order : read_start_state s ≡ true → s.read_cached_buffers ≡ []

module _ (env : Endian.Order) (grants : ℕ → Bool) where
  -- What `write_handle` puts on the wire for a payload.
  abbrev pub frame : HeadOption → List ℕ → List ℕ
  frame option payload =
      endian_from_integer env (length payload) option.bytes option.endian ++ payload

  abbrev pub frames : HeadOption → List (List ℕ) → List ℕ
  frames option [] = []
  frames option (p ∷ ps) = frame option p ++ frames option ps

  -- A payload that the reader accepts: not longer than its maximum, and small enough for a buffer,
  -- and for its length to be a positive number of the header's width.
  pub record Accepts (option : HeadOption) (payload : List ℕ) : Type 0 where
    pub short : length payload ≤ option.max
    pub positive : length payload < 2 ^ (8 * option.bytes - 1)
    pub below : length payload < max_capacity
    pub granted : grants (length payload) ≡ true

  module _ (s : ReadSocket) (v : IsBetween s) (payload : List ℕ) where
    abbrev pub header : List ℕ
    header =
        endian_from_integer env (length payload) s.read_head_option.bytes s.read_head_option.endian

    -- The bytes of the header.
    feed_width :
        (xs : List ℕ)
        → length xs ≡ s.read_head_option.bytes
        → feed_all env grants s xs ≡ after_header env grants (record s { read_head_buffer = xs })
    feed_width [] e = absurd (let pos = width_pos v.width in omega (arith, pos, e))
    feed_width (x ∷ xs) e =
        feed_header_all env grants s x xs v.alive v.no_packet
          (omega (arith, e, ap length v.no_header))
        ∙ ap (λ l. after_header env grants (record s { read_head_buffer = l ++ (x ∷ xs) }))
            v.no_header

    wide : length header ≡ s.read_head_option.bytes
    wide = length-endian_from_integer env s.read_head_option.endian (length payload) v.width

    pub feed_head :
        feed_all env grants s header
        ≡ elim (begin_packet env grants (record s { read_head_buffer = header })) [
          | stop s' ↦ s'
          | next s' p ↦ complete s' p
        ]
    unfolding after_header
    feed_head =
        feed_width header wide ∙ rw (eq→== (length header) s.read_head_option.bytes wide) refl

    module _ (a : Accepts s.read_head_option payload) where
      begun : ReadSocket
      begun = record s { read_head_buffer = header; read_bytes = length payload }

      room : (not (leb max_capacity (length payload)) && grants (length payload)) ≡ true
      room = rw (lt→leb (length payload) max_capacity a.below) a.granted

      read_length :
          endian_to_integer env header s.read_head_option.bytes s.read_head_option.endian % 2 ^ 32
          ≡ length payload
      read_length =
          rw (endian_round_trip env s.read_head_option.endian (length payload) v.width a.positive)
            (mod-eq_of_lt (omega (arith, a.below)))

      begin_frame :
          begin_packet env grants (record s { read_head_buffer = header })
          ≡ next begun (record { cap = length payload; bytes = [] })
      unfolding begin_packet new_packet begun
      begin_frame =
          rw (read_length, le→leb (length payload) s.read_head_option.max a.short, room)
            (ap
              (λ n.
                next (record s { read_head_buffer = header; read_bytes = n })
                  (record { cap = length payload; bytes = [] }))
              read_length)

      whole : Packet
      whole = record { cap = length payload; bytes = payload }

      begin_feed :
          feed_all env grants s header
          ≡ complete begun (record { cap = length payload; bytes = [] })
      begin_feed =
          feed_head ∙ ap (λ t. elim t [ stop s' ↦ s' | next s' p ↦ complete s' p ]) begin_frame

      finish_whole : complete begun whole ≡ finish_packet begun whole
      unfolding complete whole begun
      finish_whole = rw (eq→== (length payload - length payload) 0 (omega arith)) refl

      fill_frame :
          (bytes : List ℕ)
          → feed_all env grants (complete begun (record { cap = length bytes; bytes = [] })) bytes
            ≡ complete begun (record { cap = length bytes; bytes = bytes })
      unfolding feed_all begun
      fill_frame [] = refl
      fill_frame (x ∷ xs) =
          ap (λ t. feed_all env grants t (x ∷ xs)) (complete_lacks begun empty (omega arith))
          ∙ feed_packet_all env grants (record begun { read_buffer = some empty }) empty x xs
              v.alive refl (omega arith)
          ∙ complete_over begun (some empty) (put empty (x ∷ xs))
        where
          empty : Packet
          empty = record { cap = length (x ∷ xs); bytes = [] }

      feed_frame :
          feed_all env grants s (frame s.read_head_option payload) ≡ finish_packet begun whole
      unfolding whole
      feed_frame =
          feed_all-append env grants s header payload
          ∙ ap (λ t. feed_all env grants t payload) begin_feed
          ∙ fill_frame payload
          ∙ finish_whole

      Delivered : ReadSocket → Type 0
      Delivered t =
          (log t ≡ log s ++ (packet payload ∷ []))
          × IsBetween t
          × (t.read_head_option ≡ s.read_head_option)

      finish_delivers :
          (b : Bool)
          → read_start_state s ≡ b
          → Delivered (rewind true (record (deliver b begun whole) { read_buffer = none }))
      unfolding Delivered begun whole rewind deliver
      finish_delivers true on = (logged, between, refl)
        where
          none_kept : s.read_cached_buffers ≡ []
          none_kept = v.in_order on

          logged :
              (s.sent ++ (packet payload ∷ [])) ++ map packet_of s.read_cached_buffers
              ≡ (s.sent ++ map packet_of s.read_cached_buffers) ++ (packet payload ∷ [])
          logged = rw (none_kept) (
              append-nil (s.sent ++ (packet payload ∷ []))
              ∙ ap (λ l. l ++ (packet payload ∷ [])) (sym (append-nil s.sent)))

          between :
              IsBetween (rewind true (record (deliver true begun whole) { read_buffer = none }))
          between = record {
            alive = v.alive;
            width = v.width;
            narrow = v.narrow;
            no_header = refl;
            no_packet = refl;
            in_order = λ _. none_kept;
          }
      finish_delivers false off = (logged, between, refl)
        where
          logged :
              s.sent ++ map packet_of (s.read_cached_buffers ++ (whole ∷ []))
              ≡ (s.sent ++ map packet_of s.read_cached_buffers) ++ (packet payload ∷ [])
          logged =
              ap (λ l. s.sent ++ l) (map-append packet_of s.read_cached_buffers (whole ∷ []))
              ∙ sym
                  (append_assoc s.sent (map packet_of s.read_cached_buffers) (packet payload ∷ []))

          between :
              IsBetween (rewind true (record (deliver false begun whole) { read_buffer = none }))
          between = record {
            alive = v.alive;
            width = v.width;
            narrow = v.narrow;
            no_header = refl;
            no_packet = refl;
            in_order = λ on. absurd (cc);
          }

      frame_delivers : Delivered (feed_all env grants s (frame s.read_head_option payload))
      unfolding finish_packet begun
      frame_delivers = subst Delivered (sym feed_frame) (
          rw (lt→ltb 0 s.read_head_option.bytes (width_pos v.width))
            (finish_delivers (read_start_state s) refl))

  -- Every payload is one that the reader accepts.
  abbrev pub AllAccepted : HeadOption → List (List ℕ) → Type 0
  AllAccepted option [] = Unit {0}
  AllAccepted option (p ∷ ps) = Accepts option p × AllAccepted option ps

  frames_log :
      (option : HeadOption) (ps : List (List ℕ)) (s : ReadSocket)
      → IsBetween s
      → s.read_head_option ≡ option
      → AllAccepted option ps
      → (log (feed_all env grants s (frames option ps)) ≡ log s ++ map packet ps)
        × IsBetween (feed_all env grants s (frames option ps))
  unfolding feed_all Delivered
  frames_log option [] s v e a = (sym (append-nil (log s)), v)
  frames_log option (p ∷ ps) s v e (a, accepted) =
      let (logged, between, kept) = frame_delivers s v p (subst (λ o. Accepts o p) (sym e) a) in
      let rest =
        frames_log option ps (feed_all env grants s (frame s.read_head_option p)) between (kept ∙ e)
          accepted in
      let split = feed_all-append env grants s (frame option p) (frames option ps) in
      subst (λ t. (log t ≡ log s ++ map packet (p ∷ ps)) × IsBetween t)
        (sym (
          split
          ∙ ap (λ o. feed_all env grants (feed_all env grants s (frame o p)) (frames option ps))
              (sym e)))
        (
          rest.0
              ∙ ap (λ l. l ++ map packet ps) logged
              ∙ append_assoc (log s) (packet p ∷ []) (map packet ps),
          rest.1,
        )

  pub IsBetween-IsFraming : (s : ReadSocket) → IsBetween s → IsFraming s
  IsBetween-IsFraming s v =
      in_header v.alive (let pos = width_pos v.width in omega (arith, pos, ap length v.no_header))
        v.no_packet

  -- Payloads that are framed with the length header the socket has, and that arrive in chunks of any
  -- sizes, reach the log as one packet each, in their order and with their bytes: they are sent to
  -- the context, or kept for it while it does not read. Each must be no longer than the header's
  -- maximum and than the largest positive number of its width, and there must be memory for it.
  pub frames_round_trip :
      (s : ReadSocket) (payloads : List (List ℕ)) (s' : ReadSocket)
      → IsBetween s
      → AllAccepted s.read_head_option payloads
      → Arrives env grants s (frames s.read_head_option payloads) s'
      → log s' ≡ log s ++ map packet payloads
  frames_round_trip s payloads s' v accepted a =
      ap log (
        Arrives-feed_all env grants s (frames s.read_head_option payloads) s'
          (IsBetween-IsFraming s v) a)
      ∙ (frames_log s.read_head_option payloads s v refl accepted).0
