-- ===== src/TcpHandle/Stream/Chunks.antt =====
-- However a stream is cut into chunks, the loop does what it does on one byte after the other.
use native.Mathlib.Decide.{dec_le, ℕ_discrete}
use node_lua.Common.{
  ℕ, zero, suc, ◌+◌, ◌-◌, ◌<◌, ◌≤◌, ◌≡◌, ◌≢◌, refl, sym, ap, ◌∙◌, List, [], ◌∷◌, ◌++◌, Option, none,
  some, Bool, not, ◌%◌, ◌^◌, ◌&&◌, ltb, leb, if◌then◌else◌, length, length-append, take, drop,
  take-append-drop, length-take, length-drop, arith, Bool-cases, eq→==, ne→==, lt→ltb, le→ltb,
  lt→leb, le→leb, inl, inr,
}
use node_lua.Buffer.{max_capacity}
use node_lua.Endian
use node_lua.Endian.{endian_to_integer}
use node_lua.TcpHandle.{
  ReadSocket, Packet, Step, stop, next, put, complete, finish_error, finish_error_in, enomem,
  emsgsize, begin_packet, new_packet, fill, fill_buffer, receive, UvError,
}
use node_lua.TcpHandle.Stream.{
  IsFraming, in_header, in_packet, after_header, feed_all, feed_all-append,
}
use node_lua.TcpHandle.Stream.Parts.{
  complete_over, IsOpen, complete-IsFraming, complete_lacks, feed_dead, header_lacks,
  feed_header_all, feed_packet_all,
}

module _ (env : Endian.Order) (grants : ℕ → Bool) where
  -- What the rest of the loop is to do on chunks of at most `n` bytes.
  abbrev pub Feeds : ℕ → (ReadSocket → List ℕ → Option ReadSocket) → Type 0
  Feeds n again =
      (s : ReadSocket) (bs : List ℕ)
      → IsFraming s
      → length bs ≤ n
      → again s bs ≡ some (feed_all env grants s bs)

  module _ (n : ℕ) (again : ReadSocket → List ℕ → Option ReadSocket) (feeds : Feeds n again)
      (s : ReadSocket) (p : Packet) (v : IsOpen s p) where
    fill_full :
        (bytes : List ℕ)
        → p.cap - length p.bytes ≡ 0
        → length bytes ≤ n
        → fill env grants again s p bytes ≡ some (feed_all env grants (complete s p) bytes)
    unfolding fill
    fill_full bytes full le =
        rw (le→ltb (p.cap - length p.bytes) 0 (omega (arith, full)))
          (feeds (complete s p) bytes (complete-IsFraming s p v) le)

    feed_lacking :
        (x : ℕ) (xs : List ℕ)
        → length p.bytes + length (x ∷ xs) ≤ p.cap
        → feed_all env grants (complete s p) (x ∷ xs) ≡ complete s (put p (x ∷ xs))
    feed_lacking x xs fits =
        ap (λ t. feed_all env grants t (x ∷ xs)) (complete_lacks s p (omega (arith, fits)))
        ∙ feed_packet_all env grants (record s { read_buffer = some p }) p x xs v.alive refl fits
        ∙ complete_over s (some p) (put p (x ∷ xs))

    put-IsOpen : (bytes : List ℕ) → length p.bytes + length bytes ≤ p.cap → IsOpen s (put p bytes)
    put-IsOpen bytes fits = record {
      alive = v.alive;
      framed = v.framed;
      header = v.header;
      fits = rw (length-append p.bytes bytes) fits;
    }

    -- The packet takes its last bytes from the chunk, and the rest goes on.
    fill_rest :
        (x : ℕ) (xs : List ℕ) (unread : ℕ)
        → unread ≡ p.cap - length p.bytes
        → 0 < unread
        → unread ≤ length (x ∷ xs)
        → length (x ∷ xs) ≤ n + unread
        → again (complete s (put p (take unread (x ∷ xs)))) (drop unread (x ∷ xs))
          ≡ some (feed_all env grants (complete s p) (x ∷ xs))
    fill_rest x xs (suc k) e pos le bound =
        feeds (complete s (put p (x ∷ take k xs))) (drop k xs)
          (complete-IsFraming s (put p (x ∷ take k xs)) (put-IsOpen (x ∷ take k xs) fits))
          (omega (arith, length-drop k xs, bound))
        ∙ ap some (sym split)
      where
        fits : length p.bytes + length (x ∷ take k xs) ≤ p.cap
        fits = omega (arith, length-take k xs, e, v.fits)

        split :
            feed_all env grants (complete s p) (x ∷ xs)
            ≡ feed_all env grants (complete s (put p (x ∷ take k xs))) (drop k xs)
        split =
            ap (λ l. feed_all env grants (complete s p) (x ∷ l)) (sym (take-append-drop k xs))
            ∙ feed_all-append env grants (complete s p) (x ∷ take k xs) (drop k xs)
            ∙ ap (λ t. feed_all env grants t (drop k xs)) (feed_lacking x (take k xs) fits)
    fill_rest x xs zero e pos le bound = absurd (omega (arith, pos))

    -- The packet takes all of the chunk and lacks more.
    fill_part :
        (x : ℕ) (xs : List ℕ)
        → length p.bytes + length (x ∷ xs) < p.cap
        → some (record s { read_buffer = some (put p (x ∷ xs)) })
          ≡ some (feed_all env grants (complete s p) (x ∷ xs))
    fill_part x xs lt = ap some (
        sym (
          feed_lacking x xs (omega (arith, lt))
          ∙ complete_lacks s (put p (x ∷ xs)) (omega (arith, lt, length-append p.bytes (x ∷ xs)))))

    fill_feeds :
        (bytes : List ℕ)
        → length bytes ≤ n + (p.cap - length p.bytes)
        → fill env grants again s p bytes ≡ some (feed_all env grants (complete s p) bytes)
    unfolding fill
    fill_feeds bytes bound = elim (ℕ_discrete (p.cap - length p.bytes) 0) [
      | yes full ↦ fill_full bytes full (omega (arith, bound, full))
      | no lacks ↦
          rw (lt→ltb 0 (p.cap - length p.bytes) (omega (arith, lacks)))
            (some_bytes bytes bound lacks)
    ]
      where
        some_bytes :
            (bytes : List ℕ)
            → length bytes ≤ n + (p.cap - length p.bytes)
            → p.cap - length p.bytes ≢ 0
            → (if ltb 0 (length bytes)
                then (if leb (p.cap - length p.bytes) (length bytes)
                    then again
                        (complete s (put p (take (p.cap - length p.bytes) bytes)))
                        (drop (p.cap - length p.bytes) bytes)
                    else some (record s { read_buffer = some (put p bytes) }))
                else again (complete s p) bytes)
              ≡ some (feed_all env grants (complete s p) bytes)
        some_bytes [] bound' lacks =
            feeds (complete s p) [] (complete-IsFraming s p v) (omega arith)
        some_bytes (x ∷ xs) bound' lacks =
            elim (dec_le (p.cap - length p.bytes) (length (x ∷ xs))) [
              | yes le ↦
                  rw
                    (
                      lt→ltb 0 (length (x ∷ xs)) (omega arith),
                      le→leb (p.cap - length p.bytes) (length (x ∷ xs)) le,
                    )
                    (fill_rest x xs (p.cap - length p.bytes) refl (omega (arith, lacks)) le bound')
              | no over ↦
                  rw
                    (
                      lt→ltb 0 (length (x ∷ xs)) (omega arith),
                      lt→leb (length (x ∷ xs)) (p.cap - length p.bytes) (omega (arith, over)),
                    )
                    (fill_part x xs (omega (arith, over)))
            ]

  -- A header leads to an error or to an open packet.
  abbrev pub IsBegun : Step → Type 0
  IsBegun (stop s) = (e : UvError) × (s.read_error ≡ some e)
  IsBegun (next s p) = IsOpen s p

  finish_error_dead :
      (s : ReadSocket) (e : UvError) → s.read_error ≡ none → (finish_error s e).read_error ≡ some e
  unfolding finish_error
  finish_error_dead s e alive = ap (λ o. (finish_error_in o s e).read_error) alive

  pub begin-IsBegun :
      (s : ReadSocket)
      → s.read_error ≡ none
      → 0 < s.read_head_option.bytes
      → length s.read_head_buffer ≡ s.read_head_option.bytes
      → IsBegun (begin_packet env grants s)
  unfolding begin_packet new_packet
  begin-IsBegun s alive framed header = elim (Bool-cases (leb n s.read_head_option.max)) [
    | inr long ↦
        rw (long) (emsgsize, finish_error_dead (record s { read_bytes = n }) emsgsize alive)
    | inl short ↦ elim (Bool-cases (not (leb max_capacity n) && grants n)) [
      | inr denied ↦
          rw (short, denied)
            (
              enomem,
              finish_error_dead (record s { read_bytes = n; read_buffer = none }) enomem alive,
            )
      | inl granted ↦
          rw (short, granted)
            (record { alive = alive; framed = framed; header = header; fits = omega arith })
    ]
  ]
    where
      n : ℕ
      n =
          endian_to_integer env s.read_head_buffer s.read_head_option.bytes
            s.read_head_option.endian
          % 2 ^ 32

  after_step :
      (n : ℕ) (again : ReadSocket → List ℕ → Option ReadSocket)
      → Feeds n again
      → (t : Step) (rest : List ℕ) → IsBegun t
      → length rest ≤ n
      → (elim t [ stop s ↦ some s | next s p ↦ fill env grants again s p rest ])
        ≡ some (feed_all env grants (elim t [ stop s ↦ s | next s p ↦ complete s p ]) rest)
  after_step n again feeds (stop s) rest (e, dead) le =
      ap some (sym (feed_dead env grants s rest dead))
  after_step n again feeds (next s p) rest v le = fill_feeds n again feeds s p v rest (omega arith)

  -- A chunk that completes the header.
  full_header :
      (n : ℕ) (again : ReadSocket → List ℕ → Option ReadSocket)
      → Feeds n again
      → (s : ReadSocket) (b : ℕ) (bs : List ℕ) (unread : ℕ) → s.read_error ≡ none
      → s.read_buffer ≡ none
      → length s.read_head_buffer < s.read_head_option.bytes
      → unread ≡ s.read_head_option.bytes - length s.read_head_buffer
      → unread ≤ length (b ∷ bs)
      → length bs ≤ n
      → (elim (begin_packet env grants
          (record s { read_head_buffer = s.read_head_buffer ++ take unread (b ∷ bs) })) [
            | stop s' ↦ some s'
            | next s' p ↦ fill env grants again s' p (drop unread (b ∷ bs))
          ])
        ≡ some (feed_all env grants s (b ∷ bs))
  unfolding after_header
  full_header n again feeds s b bs zero alive at lt e le bound = absurd (omega (arith, e, lt))
  full_header n again feeds s b bs (suc k) alive at lt e le bound =
      after_step n again feeds (begin_packet env grants full) (drop k bs)
        (begin-IsBegun full alive (omega (arith, lt)) count)
        (omega (arith, length-drop k bs, bound))
      ∙ ap some (sym split)
    where
      full : ReadSocket
      full = record s { read_head_buffer = s.read_head_buffer ++ (b ∷ take k bs) }

      count : length (s.read_head_buffer ++ (b ∷ take k bs)) ≡ s.read_head_option.bytes
      count =
          omega
            (arith, length-append s.read_head_buffer (b ∷ take k bs), length-take k bs, e, lt, le)

      split :
          feed_all env grants s (b ∷ bs)
          ≡ feed_all env grants
              (elim (begin_packet env grants full) [ stop s' ↦ s' | next s' p ↦ complete s' p ])
              (drop k bs)
      split =
          ap (λ l. feed_all env grants s (b ∷ l)) (sym (take-append-drop k bs))
          ∙ feed_all-append env grants s (b ∷ take k bs) (drop k bs)
          ∙ ap (λ t. feed_all env grants t (drop k bs))
              (feed_header_all env grants s b (take k bs) alive at
                  (omega (arith, length-take k bs, e, lt, le))
                ∙ rw (eq→== (length full.read_head_buffer) s.read_head_option.bytes count) refl)

  pub feed_none : (s : ReadSocket) → feed_all env grants s [] ≡ s
  unfolding feed_all
  feed_none s = refl

  -- A chunk for a packet that lacks bytes.
  open_packet :
      (n : ℕ) (again : ReadSocket → List ℕ → Option ReadSocket)
      → Feeds n again
      → (s : ReadSocket) (p : Packet) (bs : List ℕ) → IsOpen s p
      → s.read_buffer ≡ some p
      → length p.bytes < p.cap
      → length bs ≤ suc n
      → fill_buffer env grants again s.read_buffer s bs ≡ some (feed_all env grants s bs)
  unfolding fill_buffer
  open_packet n again feeds s p bs v at lacks le =
      ap (λ o. fill_buffer env grants again o s bs) at
      ∙ fill_feeds n again feeds s p v bs (omega (arith, lacks, le))
      ∙ ap (λ t. some (feed_all env grants t bs)) (complete_lacks s p lacks ∙ sym there)
    where
      there : ◌≡◌ {A = ReadSocket} s (record s { read_buffer = some p })
      there = ap (λ o. record s { read_buffer = o }) at

  pub receive-Feeds : (fuel : ℕ) → Feeds fuel (receive env grants fuel)
  unfolding receive
  receive-Feeds fuel s [] v le = ap some (sym (feed_none s))
  receive-Feeds zero s (b ∷ bs) v le = absurd (omega (arith, le))
  receive-Feeds (suc fuel) s (b ∷ bs) (in_header alive lt at) le =
      elim (dec_le (s.read_head_option.bytes - length s.read_head_buffer) (length (b ∷ bs))) [
        | yes enough ↦
            rw
              (
                receive,
                lt→ltb 0 (s.read_head_option.bytes - length s.read_head_buffer) (omega (arith, lt)),
                le→leb (s.read_head_option.bytes - length s.read_head_buffer) (length (b ∷ bs))
                    enough,
              )
              (full_header fuel (receive env grants fuel) (receive-Feeds fuel) s b bs
                (s.read_head_option.bytes - length s.read_head_buffer) alive at lt refl enough
                (omega (arith, le)))
        | no short ↦
            rw
              (
                receive,
                lt→ltb 0 (s.read_head_option.bytes - length s.read_head_buffer) (omega (arith, lt)),
                lt→leb (length (b ∷ bs)) (s.read_head_option.bytes - length s.read_head_buffer)
                    (omega (arith, short)),
              )
              (ap some (
                sym (
                  feed_header_all env grants s b bs alive at (omega (arith, short))
                  ∙ header_lacks env grants
                      (record s { read_head_buffer = s.read_head_buffer ++ (b ∷ bs) })
                      (omega (arith, short, length-append s.read_head_buffer (b ∷ bs))))))
      ]
  receive-Feeds (suc fuel) s (b ∷ bs) (in_packet p alive framed header at lacks) le =
      rw
        (
          receive,
          le→ltb (s.read_head_option.bytes - length s.read_head_buffer) 0 (omega (arith, header)),
          ne→== s.read_head_option.bytes 0 (omega (arith, framed)),
        )
        (open_packet fuel (receive env grants fuel) (receive-Feeds fuel) s p (b ∷ bs)
          (record { alive = alive; framed = framed; header = header; fits = omega (arith, lacks) })
          at lacks le)
