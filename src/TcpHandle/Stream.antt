-- ===== src/TcpHandle/Stream.antt =====
-- The framing of a stream, one byte after the other: what the loop of `write_read_buffer` is to do.
pub mod Parts
pub mod Chunks
pub mod Arrival
pub mod Frames
pub mod TooLong
use node_lua.Common.{
  ℕ, zero, suc, ◌+◌, ◌-◌, ◌<◌, ◌≤◌, ◌≡◌, ◌≢◌, refl, List, [], ◌∷◌, ◌++◌, Option, none, some, Bool,
  true, false, ltb, ◌==◌, if◌then◌else◌, length,
}
use node_lua.Endian
use node_lua.TcpHandle.{ReadSocket, Packet, Step, stop, next, put, complete, begin_packet, UvError}

-- A framed socket between two bytes: in a header with no packet, or in a packet that lacks bytes.
pub data IsFraming (s : ReadSocket) : Type 0 where
  in_header :
      s.read_error ≡ none
      → length s.read_head_buffer < s.read_head_option.bytes
      → s.read_buffer ≡ none
      → IsFraming s
  in_packet :
      (p : Packet)
      → s.read_error ≡ none
      → 0 < s.read_head_option.bytes
      → length s.read_head_buffer ≡ s.read_head_option.bytes
      → s.read_buffer ≡ some p
      → length p.bytes < p.cap
      → IsFraming s

module _ (env : Endian.Order) (grants : ℕ → Bool) where
  -- A header that may now be complete: a packet of length 0 is complete at once.
  pub after_header : ReadSocket → ReadSocket
  after_header s =
      if length s.read_head_buffer == s.read_head_option.bytes
      then (elim (begin_packet env grants s) [ stop s' ↦ s' | next s' p ↦ complete s' p ])
      else s

  pub feed_in : Option UvError → Option Packet → ReadSocket → ℕ → ReadSocket
  unfolding after_header
  feed_in (some e) o s b = s
  feed_in none none s b =
      after_header (record s { read_head_buffer = s.read_head_buffer ++ (b ∷ []) })
  feed_in none (some p) s b = complete s (put p (b ∷ []))

  -- One byte. After an error nothing is read.
  pub feed : ReadSocket → ℕ → ReadSocket
  unfolding feed_in
  feed s b = feed_in s.read_error s.read_buffer s b

  pub feed_all : ReadSocket → List ℕ → ReadSocket
  unfolding feed
  feed_all s [] = s
  feed_all s (b ∷ bs) = feed_all (feed s b) bs

  pub feed_all-append :
      (s : ReadSocket) (xs ys : List ℕ) → feed_all s (xs ++ ys) ≡ feed_all (feed_all s xs) ys
  unfolding feed_all
  feed_all-append s [] ys = refl
  feed_all-append s (x ∷ xs) ys = feed_all-append (feed s x) xs ys
