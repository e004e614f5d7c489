-- ===== src/TcpHandle/Stream/TooLong.antt =====
-- Payloads whose length has the top bit of a header's width set. `endian_to_integer` reads a header
-- as a signed integer, so such a length comes back as a huge number.
use node_lua.Common.{
  ℕ, ◌+◌, ◌-◌, ◌*◌, ◌%◌, ◌^◌, ◌<◌, ◌≤◌, ◌≡◌, refl, sym, ap, subst, ◌∙◌, List, [], ◌∷◌, ◌++◌,
  append-nil, append_assoc, map, some, Bool, length, arith, lt→leb,
}
use node_lua.Endian
use node_lua.Endian.{endian_to_integer, endian_from_integer}
use node_lua.Endian.RoundTrip.{IsWidth, one, two, four, eight, endian_round_trip_negative}
use node_lua.Buffer.{max_capacity}
use node_lua.TcpHandle.{
  ReadSocket, begin_packet, finish_error, finish_error_in, trigger_read_error, emsgsize, failed,
  packet_of,
}
use node_lua.TcpHandle.Stream.{feed_all, feed_all-append}
use node_lua.TcpHandle.Stream.Parts.{feed_dead}
use node_lua.TcpHandle.Stream.Frames.{IsBetween, log, header, feed_head, IsBetween-IsFraming}
use node_lua.TcpHandle.Stream.Arrival.{Arrives, Arrives-feed_all}

module _ (env : Endian.Order) (grants : ℕ → Bool) where
  -- What the reader takes such a length for.
  over :
      {n : ℕ} (v k : ℕ)
      → IsWidth n
      → n ≤ 4
      → 2 ^ (8 * n - 1) ≤ v
      → v < 2 ^ (8 * n)
      → k + 2 ^ (8 * n) ≡ v + 2 ^ 64
      → max_capacity < k % 2 ^ 32
  over v k one le low high e = omega (arith, low, high, e)
  over v k two le low high e = omega (arith, low, high, e)
  over v k four le low high e = omega (arith, low, high, e)
  over v k eight le low high e = absurd (omega (arith, le))

  module _ (s : ReadSocket) (v : IsBetween s) (payload : List ℕ)
      (low : 2 ^ (8 * s.read_head_option.bytes - 1) ≤ length payload)
      (high : length payload < 2 ^ (8 * s.read_head_option.bytes))
      (bounded : s.read_head_option.max ≤ max_capacity) where
    read_as : ℕ
    read_as =
        endian_to_integer env (header env grants s v payload) s.read_head_option.bytes
          s.read_head_option.endian
        % 2 ^ 32

    read_as-over : max_capacity < read_as
    unfolding read_as
    read_as-over =
        over (length payload)
          (endian_to_integer env (header env grants s v payload) s.read_head_option.bytes
            s.read_head_option.endian)
          v.width v.narrow low high
          (endian_round_trip_negative env s.read_head_option.endian (length payload) v.width low
            high)

    failing : ReadSocket
    unfolding read_as
    failing = record s { read_head_buffer = header env grants s v payload; read_bytes = read_as }

    feed_refused :
        feed_all env grants s (header env grants s v payload) ≡ finish_error failing emsgsize
    unfolding begin_packet failing read_as
    feed_refused =
        feed_head env grants s v payload
        ∙ rw (lt→leb s.read_head_option.max read_as (omega (arith, read_as-over, bounded))) refl

    refused_dead : (finish_error failing emsgsize).read_error ≡ some emsgsize
    unfolding finish_error failing
    refused_dead = ap (λ o. (finish_error_in o failing emsgsize).read_error) v.alive

    refused_log : log (finish_error failing emsgsize) ≡ log s ++ (failed emsgsize ∷ [])
    unfolding finish_error failing trigger_read_error
    refused_log =
        ap (λ o. log (finish_error_in o failing emsgsize)) v.alive
        ∙ append-nil (s.sent ++ (map packet_of s.read_cached_buffers ++ (failed emsgsize ∷ [])))
        ∙ sym (append_assoc s.sent (map packet_of s.read_cached_buffers) (failed emsgsize ∷ []))

  -- What stands behind such a header is not looked at.
  feed-emsgsize :
      (s : ReadSocket) (payload tail : List ℕ) (v : IsBetween s)
      → 2 ^ (8 * s.read_head_option.bytes - 1) ≤ length payload
      → length payload < 2 ^ (8 * s.read_head_option.bytes)
      → s.read_head_option.max ≤ max_capacity
      → let s' = feed_all env grants s (header env grants s v payload ++ tail) in
        (log s' ≡ log s ++ (failed emsgsize ∷ [])) × (s'.read_error ≡ some emsgsize)
  feed-emsgsize s payload tail v low high bounded =
      subst (λ s'. (log s' ≡ log s ++ (failed emsgsize ∷ [])) × (s'.read_error ≡ some emsgsize))
        (sym (
          feed_all-append env grants s (header env grants s v payload) tail
          ∙ ap (λ t. feed_all env grants t tail) (feed_refused s v payload low high bounded)
          ∙ feed_dead env grants (finish_error (failing s v payload low high bounded) emsgsize) tail
              dead))
        (refused_log s v payload low high bounded, dead)
    where
      dead :
          (finish_error (failing s v payload low high bounded) emsgsize).read_error ≡ some emsgsize
      dead = refused_dead s v payload low high bounded

  -- A payload whose length is within the unsigned range of the header's width, but has the top bit
  -- set, and a reader whose maximum is any up to 0x7fffffff: when `write_read_buffer` has taken chunks
  -- that together are the header and any bytes behind it, of the payload or of what follows, the stream
  -- has ended with EMSGSIZE, which is all that the context gets.
  pub negative_frame-emsgsize :
      (s : ReadSocket) (payload tail : List ℕ) (s' : ReadSocket)
      → IsBetween s
      → 2 ^ (8 * s.read_head_option.bytes - 1) ≤ length payload
      → length payload < 2 ^ (8 * s.read_head_option.bytes)
      → s.read_head_option.max ≤ max_capacity
      → Arrives env grants s
          (endian_from_integer env
              (length payload)
              s.read_head_option.bytes
              s.read_head_option.endian
            ++ tail)
          s'
      → (log s' ≡ log s ++ (failed emsgsize ∷ [])) × (s'.read_error ≡ some emsgsize)
  negative_frame-emsgsize s payload tail s' v low high bounded a =
      subst (λ t. (log t ≡ log s ++ (failed emsgsize ∷ [])) × (t.read_error ≡ some emsgsize))
        (sym (
          Arrives-feed_all env grants s (header env grants s v payload ++ tail) s'
            (IsBetween-IsFraming env grants s v) a))
        (feed-emsgsize s payload tail v low high bounded)
