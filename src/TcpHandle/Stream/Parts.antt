-- ===== src/TcpHandle/Stream/Parts.antt =====
-- What a run of bytes within one header or one packet does.
use native.Mathlib.Decide.{ℕ_discrete}
use node_lua.Common.{
  ℕ, ◌+◌, ◌-◌, ◌<◌, ◌≤◌, ◌≡◌, refl, ap, ap₂, ◌∙◌, List, [], ◌∷◌, ◌++◌, append_assoc, Option, none,
  some, Bool, true, false, ltb, ◌==◌, if◌then◌else◌, length, length-append, arith, eq→==, ne→==,
  lt→ltb,
}
use node_lua.Endian
use node_lua.Endian.{endian_to_integer}
use node_lua.TcpHandle.{
  ReadSocket, Packet, put, deliver, rewind, complete, finish_packet, read_start_state, UvError,
}
use node_lua.TcpHandle.Stream.{
  IsFraming, in_header, in_packet, after_header, feed_in, feed, feed_all,
}

pub complete_over :
    (s : ReadSocket) (o : Option Packet) (p : Packet)
    → complete (record s { read_buffer = o }) p ≡ complete s p
unfolding complete finish_packet
complete_over s o p =
    ap
      (λ t.
        if p.cap - length p.bytes == 0
        then rewind (ltb 0 s.read_head_option.bytes) t
        else record s { read_buffer = some p })
      (same (read_start_state s))
  where
    same :
        (b : Bool)
        → ◌≡◌ {A = ReadSocket}
            (record (deliver b (record s { read_buffer = o }) p) { read_buffer = none })
            (record (deliver b s p) { read_buffer = none })
    same true = refl
    same false = refl

-- The state when a header is complete and `p` has no more bytes than its capacity.
pub record IsOpen (s : ReadSocket) (p : Packet) : Type 0 where
  pub alive : s.read_error ≡ none
  pub framed : 0 < s.read_head_option.bytes
  pub header : length s.read_head_buffer ≡ s.read_head_option.bytes
  pub fits : length p.bytes ≤ p.cap

pub complete-IsFraming : (s : ReadSocket) (p : Packet) → IsOpen s p → IsFraming (complete s p)
unfolding complete finish_packet
complete-IsFraming s p v = elim (ℕ_discrete (p.cap - length p.bytes) 0) [
  | yes full ↦ rw (eq→== (p.cap - length p.bytes) 0 full) (framing (read_start_state s))
  | no short ↦
      rw (ne→== (p.cap - length p.bytes) 0 short)
        (in_packet p v.alive v.framed v.header refl (omega (arith, v.fits)))
]
  where
    framing :
        (b : Bool)
        → IsFraming (
            rewind (ltb 0 s.read_head_option.bytes) (record (deliver b s p) { read_buffer = none }))
    framing b = rw (lt→ltb 0 s.read_head_option.bytes v.framed) (started b)
      where
        started :
            (b : Bool) → IsFraming (rewind true (record (deliver b s p) { read_buffer = none }))
        started true = in_header v.alive v.framed refl
        started false = in_header v.alive v.framed refl

pub complete_lacks :
    (s : ReadSocket) (p : Packet)
    → length p.bytes < p.cap
    → complete s p ≡ record s { read_buffer = some p }
unfolding complete
complete_lacks s p lt = rw (ne→== (p.cap - length p.bytes) 0 (omega (arith, lt))) refl

module _ (env : Endian.Order) (grants : ℕ → Bool) where
  pub feed_header :
      (s : ReadSocket) (b : ℕ)
      → s.read_error ≡ none
      → s.read_buffer ≡ none
      → feed env grants s b
        ≡ after_header env grants (record s { read_head_buffer = s.read_head_buffer ++ (b ∷ []) })
  unfolding feed
  feed_header s b alive at = ap₂ (λ e o. feed_in env grants e o s b) alive at

  pub feed_packet :
      (s : ReadSocket) (p : Packet) (b : ℕ)
      → s.read_error ≡ none
      → s.read_buffer ≡ some p
      → feed env grants s b ≡ complete s (put p (b ∷ []))
  unfolding feed
  feed_packet s p b alive at = ap₂ (λ e o. feed_in env grants e o s b) alive at

  -- After an error the rest of a chunk is dropped.
  pub feed_dead :
      (s : ReadSocket) {e : UvError} (bs : List ℕ)
      → s.read_error ≡ some e
      → feed_all env grants s bs ≡ s
  unfolding feed_all feed
  feed_dead s [] dead = refl
  feed_dead s (b ∷ bs) dead =
      ap (λ t. feed_all env grants t bs) (ap (λ e. feed_in env grants e s.read_buffer s b) dead)
      ∙ feed_dead s bs dead

  pub header_lacks :
      (s : ReadSocket)
      → length s.read_head_buffer < s.read_head_option.bytes
      → after_header env grants s ≡ s
  unfolding after_header
  header_lacks s lt =
      rw (ne→== (length s.read_head_buffer) s.read_head_option.bytes (omega (arith, lt))) refl

  -- The bytes of a header, as many as it lacks or fewer.
  pub feed_header_all :
      (s : ReadSocket) (x : ℕ) (xs : List ℕ)
      → s.read_error ≡ none
      → s.read_buffer ≡ none
      → length s.read_head_buffer + length (x ∷ xs) ≤ s.read_head_option.bytes
      → feed_all env grants s (x ∷ xs)
        ≡ after_header env grants (record s { read_head_buffer = s.read_head_buffer ++ (x ∷ xs) })
  unfolding feed_all
  feed_header_all s x [] alive at fits = feed_header s x alive at
  feed_header_all s x (y ∷ ys) alive at fits =
      ap (λ t. feed_all env grants t (y ∷ ys))
        (feed_header s x alive at ∙ header_lacks longer (omega (arith, fits, grown)))
      ∙ feed_header_all longer y ys alive at (omega (arith, fits, grown))
      ∙ ap (λ l. after_header env grants (record s { read_head_buffer = l }))
          (append_assoc s.read_head_buffer (x ∷ []) (y ∷ ys))
    where
      longer : ReadSocket
      longer = record s { read_head_buffer = s.read_head_buffer ++ (x ∷ []) }

      grown : length (s.read_head_buffer ++ (x ∷ [])) ≡ length s.read_head_buffer + 1
      grown = length-append s.read_head_buffer (x ∷ [])

  -- The bytes of a packet, as many as it lacks or fewer.
  pub feed_packet_all :
      (s : ReadSocket) (p : Packet) (x : ℕ) (xs : List ℕ)
      → s.read_error ≡ none
      → s.read_buffer ≡ some p
      → length p.bytes + length (x ∷ xs) ≤ p.cap
      → feed_all env grants s (x ∷ xs) ≡ complete s (put p (x ∷ xs))
  unfolding feed_all
  feed_packet_all s p x [] alive at fits = feed_packet s p x alive at
  feed_packet_all s p x (y ∷ ys) alive at fits =
      ap (λ t. feed_all env grants t (y ∷ ys))
        (feed_packet s p x alive at
          ∙ complete_lacks s (put p (x ∷ [])) (omega (arith, fits, grown)))
      ∙ feed_packet_all longer (put p (x ∷ [])) y ys alive refl (omega (arith, fits, grown))
      ∙ complete_over s (some (put p (x ∷ []))) (put (put p (x ∷ [])) (y ∷ ys))
      ∙ ap (λ l. complete s (record p { bytes = l })) (append_assoc p.bytes (x ∷ []) (y ∷ ys))
    where
      longer : ReadSocket
      longer = record s { read_buffer = some (put p (x ∷ [])) }

      grown : length (p.bytes ++ (x ∷ [])) ≡ length p.bytes + 1
      grown = length-append p.bytes (x ∷ [])
