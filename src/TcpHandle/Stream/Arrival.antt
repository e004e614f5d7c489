-- ===== src/TcpHandle/Stream/Arrival.antt =====
-- What libuv delivers over time.
use native.Mathlib.Decide.{ℕ_discrete}
use node_lua.Common.{
  ℕ, ◌+◌, ◌<◌, ◌≤◌, ◌≡◌, sym, ap, subst, ◌∙◌, List, [], ◌∷◌, ◌++◌, Option, none, some, Bool, true,
  false, ltb, if◌then◌else◌, length, length-append, arith, eq→==, ne→==, le→leb, ◌⊎◌, inl, inr,
}
use node_lua.Endian
use node_lua.TcpHandle.{
  ReadSocket, Step, stop, next, put, complete, begin_packet, UvError, ReadEvent, shared, direct,
  write_read_buffer, fill_direct, on_read_alloc, write_size, large_uncomplete_limit,
}
use node_lua.TcpHandle.Stream.{
  IsFraming, in_header, in_packet, after_header, feed, feed_all, feed_all-append,
}
use node_lua.TcpHandle.Stream.Parts.{
  feed_header, feed_packet, feed_dead, feed_packet_all, complete-IsFraming,
}
use node_lua.TcpHandle.Stream.Chunks.{receive-Feeds, IsBegun, begin-IsBegun, feed_none}

-- How libuv hands over a chunk while it reads: as `on_read_alloc` said, and no more bytes than it
-- granted. After an error it does not read (`uv_read_stop`).
pub data Offered (s : ReadSocket) (chunk : List ℕ) : ReadEvent → Type 0 where
  into_shared : s.read_error ≡ none → on_read_alloc s ≡ none → Offered s chunk (shared chunk)
  into_packet :
      (n : ℕ)
      → s.read_error ≡ none
      → on_read_alloc s ≡ some n
      → 0 < length chunk
      → length chunk ≤ n
      → Offered s chunk (direct chunk)

unsome {ℓ} : {A : Type ℓ} {a b : A} → some a ≡ some b → a ≡ b
unsome e = cc

-- After an error nothing is read any more.
abbrev pub IsLive : ReadSocket → Type 0
IsLive s = IsFraming s ⊎ ((e : UvError) × (s.read_error ≡ some e))

module _ (env : Endian.Order) (grants : ℕ → Bool) where
  begun-IsLive :
      (t : Step) → IsBegun env grants t → IsLive (elim t [ stop s ↦ s | next s p ↦ complete s p ])
  begun-IsLive (stop s) dead = inr dead
  begun-IsLive (next s p) v = inl (complete-IsFraming s p v)

  feed-IsLive : (s : ReadSocket) (b : ℕ) → IsFraming s → IsLive (feed env grants s b)
  unfolding after_header
  feed-IsLive s b (in_header alive lt at) =
      subst IsLive (sym (feed_header env grants s b alive at))
        (elim (ℕ_discrete (length full.read_head_buffer) s.read_head_option.bytes) [
          | yes e ↦ rw (eq→== (length full.read_head_buffer) s.read_head_option.bytes e) (
              begun-IsLive (begin_packet env grants full)
                (begin-IsBegun env grants full alive (omega (arith, lt)) e))
          | no ne ↦ rw (ne→== (length full.read_head_buffer) s.read_head_option.bytes ne) (
              inl (
                in_header alive (omega (arith, ne, lt, length-append s.read_head_buffer (b ∷ [])))
                  at))
        ])
    where
      full : ReadSocket
      full = record s { read_head_buffer = s.read_head_buffer ++ (b ∷ []) }
  feed-IsLive s b (in_packet p alive framed header at lacks) =
      subst IsLive (sym (feed_packet env grants s p b alive at)) (
        inl (
          complete-IsFraming s (put p (b ∷ [])) (record {
            alive = alive;
            framed = framed;
            header = header;
            fits = omega (arith, lacks, length-append p.bytes (b ∷ []));
          })))

  feed_all-IsLive : (s : ReadSocket) (bs : List ℕ) → IsLive s → IsLive (feed_all env grants s bs)
  unfolding feed_all
  feed_all-IsLive s [] v = v
  feed_all-IsLive s (b ∷ bs) (inl v) = feed_all-IsLive (feed env grants s b) bs (feed-IsLive s b v)
  feed_all-IsLive s (b ∷ bs) (inr (e, dead)) =
      subst IsLive (sym (feed_dead env grants s (b ∷ bs) dead)) (inr (e, dead))

  alloc_size : (s : ReadSocket) (n : ℕ) → on_read_alloc s ≡ some n → n ≡ write_size s.read_buffer
  unfolding on_read_alloc
  alloc_size s n e = granted (ltb (write_size s.read_buffer) large_uncomplete_limit) e
    where
      granted :
          (b : Bool)
          → ◌≡◌ {A = Option ℕ} (if b then none else some (write_size s.read_buffer)) (some n)
          → n ≡ write_size s.read_buffer
      granted true e' = absurd (cc)
      granted false e' = cc

  -- Bytes that are in the packet already.
  direct_feeds :
      (s : ReadSocket) (chunk : List ℕ)
      → IsFraming s
      → 0 < length chunk
      → length chunk ≤ write_size s.read_buffer
      → fill_direct env grants s.read_buffer s chunk ≡ some (feed_all env grants s chunk)
  unfolding fill_direct
  direct_feeds s [] v pos fits = absurd (omega (arith, pos))
  direct_feeds s (x ∷ xs) (in_header alive lt at) pos fits =
      absurd (omega (arith, fits, ap write_size at))
  direct_feeds s (x ∷ xs) (in_packet p alive framed header at lacks) pos fits =
      ap (λ o. fill_direct env grants o s (x ∷ xs)) at
      ∙ rw (le→leb (length p.bytes + length (x ∷ xs)) p.cap inside)
          (ap some (sym (feed_packet_all env grants s p x xs alive at inside)))
    where
      inside : length p.bytes + length (x ∷ xs) ≤ p.cap
      inside = omega (arith, fits, ap write_size at, lacks)

  -- `write_read_buffer` on a chunk neither faults nor loops: it does what the bytes of the chunk do
  -- one after the other, whether they are in the shared buffer or in the packet already.
  pub write_read_buffer-feed_all :
      (s : ReadSocket) (chunk : List ℕ) (event : ReadEvent)
      → IsFraming s
      → Offered s chunk event
      → write_read_buffer env grants s event ≡ some (feed_all env grants s chunk)
  unfolding write_read_buffer
  write_read_buffer-feed_all s chunk _ v (into_shared alive alloc) =
      receive-Feeds env grants (length chunk) s chunk v (omega arith)
  write_read_buffer-feed_all s chunk _ v (into_packet n alive alloc pos fits) =
      direct_feeds s chunk v pos (omega (arith, fits, alloc_size s n alloc))

  -- Chunks that arrive in order, and the state after each.
  pub data Arrives (s : ReadSocket) : List ℕ → ReadSocket → Type 0 where
    idle : Arrives s [] s
    more :
        (xs chunk ys : List ℕ) (event : ReadEvent) (s' s'' : ReadSocket)
        → Arrives s xs s'
        → Offered s' chunk event
        → write_read_buffer env grants s' event ≡ some s''
        → ys ≡ xs ++ chunk
        → Arrives s ys s''

  Offered-alive :
      {s : ReadSocket} {chunk : List ℕ} {event : ReadEvent}
      → Offered s chunk event
      → s.read_error ≡ none
  Offered-alive (into_shared alive alloc) = alive
  Offered-alive (into_packet n alive alloc pos fits) = alive

  -- One more chunk.
  more_feeds :
      (s : ReadSocket) (xs chunk : List ℕ) (event : ReadEvent) (s' s'' : ReadSocket)
      → IsFraming s
      → s' ≡ feed_all env grants s xs
      → Offered s' chunk event
      → write_read_buffer env grants s' event ≡ some s''
      → s'' ≡ feed_all env grants s (xs ++ chunk)
  more_feeds s xs chunk event s' s'' v earlier o run =
      elim (subst IsLive (sym earlier) (feed_all-IsLive s xs (inl v))) [
        | inl framing ↦
            unsome (sym run ∙ write_read_buffer-feed_all s' chunk event framing o)
            ∙ ap (λ t. feed_all env grants t chunk) earlier
            ∙ sym (feed_all-append env grants s xs chunk)
        | inr (err, dead) ↦ absurd (let alive = Offered-alive o in cc)
      ]

  -- However libuv cuts a stream into chunks, and wherever it puts them, a framed socket comes to
  -- the state that the bytes of the stream lead to one after the other.
  pub Arrives-feed_all :
      (s : ReadSocket) (xs : List ℕ) (s' : ReadSocket)
      → IsFraming s
      → Arrives s xs s'
      → s' ≡ feed_all env grants s xs
  Arrives-feed_all s xs s' v idle = sym (feed_none env grants s)
  Arrives-feed_all s ys s'' v (more xs chunk _ event s' _ a o run e) =
      subst (λ l. s'' ≡ feed_all env grants s l) (sym e)
        (more_feeds s xs chunk event s' s'' v (Arrives-feed_all s xs s' v a) o run)
