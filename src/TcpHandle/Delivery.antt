-- ===== src/TcpHandle/Delivery.antt =====
-- `read`: what it sends, what it keeps, and when the handle reads on.
use node_lua.Common.{
  ◌≡◌, refl, sym, ap, subst, ◌∙◌, List, [], ◌∷◌, ◌++◌, append_assoc, map, Option, none, some, Bool,
  true, false, Bool-cases, inl, inr,
}
use node_lua.TcpHandle.{
  ReadSocket, Packet, packet_of, UvError, read_start_state, count_down, send_cached, finish_read,
  start_reading, want, read,
}
use node_lua.TcpHandle.Stream.Frames.{log}

-- While the context wants packets, none is kept for later.
abbrev pub InOrder : ReadSocket → Type 0
InOrder s = read_start_state s ≡ true → s.read_cached_buffers ≡ []

-- What the loop of `read` leaves, and whether it returned from there.
Sent : ReadSocket → Bool × ReadSocket → Type 0
Sent s (returned, s') =
    (log s' ≡ log s) × InOrder s' × ((returned ≡ false) → s'.read_cached_buffers ≡ [])

send_cached-Sent :
    (ps : List Packet) (s : ReadSocket) → s.read_cached_buffers ≡ ps → Sent s (send_cached ps s)
unfolding send_cached Sent
send_cached-Sent [] s e = (refl, λ _. e, λ _. e)
send_cached-Sent (p ∷ ps) s e = elim (Bool-cases (read_start_state s')) [
  | inl on ↦
      rw (on)
        (let (same, order, kept) = send_cached-Sent ps s' refl in (same ∙ logged, order, kept))
  | inr off ↦ rw (off) (logged, (λ on. absurd (cc)), (λ returned. absurd (cc)))
]
  where
    s' : ReadSocket
    s' = count_down (record s { sent = s.sent ++ (packet_of p ∷ []); read_cached_buffers = ps })

    logged : log s' ≡ log s
    logged =
        append_assoc s.sent (packet_of p ∷ []) (map packet_of ps)
        ∙ ap (λ l. s.sent ++ map packet_of l) (sym e)

finish_log :
    (s : ReadSocket) (closing read_started : Bool) (r : Bool × ReadSocket)
    → Sent s r
    → (log (finish_read none closing read_started r) ≡ log s)
      × InOrder (finish_read none closing read_started r)
unfolding finish_read start_reading Sent
finish_log s closing read_started (true, s') (same, order, kept) = (same, order)
finish_log s closing true (false, s') (same, order, kept) = (same, order)
finish_log s closing false (false, s') (same, order, kept) = (same, order)

read_alive :
    (start : Option UvError) (s : ReadSocket) (closing blocking : Bool)
    → s.read_error ≡ none
    → read start closing blocking s
      ≡ finish_read start closing
          (read_start_state s)
          (send_cached s.read_cached_buffers (want blocking s))
unfolding read
read_alive start s closing blocking alive =
    ap
      (λ o. elim o [
        | some _ ↦ s
        | none ↦
            finish_read start closing (read_start_state s)
              (send_cached s.read_cached_buffers (want blocking s))
      ])
      alive

-- `read` on a live socket whose `uv_read_start` succeeds loses no packet, sends none twice and
-- keeps their order: what has been sent, followed by what is kept, stays as it was. And when the
-- context still wants packets then, all have been sent.
pub read-log :
    (s : ReadSocket) (closing blocking : Bool)
    → s.read_error ≡ none
    → (log (read none closing blocking s) ≡ log s) × InOrder (read none closing blocking s)
unfolding Sent
read-log s closing blocking alive =
    subst (λ t. (log t ≡ log s) × InOrder t) (sym (read_alive none s closing blocking alive))
      (finish_log s closing (read_start_state s)
        (send_cached s.read_cached_buffers (want blocking s)) (kept blocking))
  where
    kept : (blocking : Bool) → Sent s (send_cached s.read_cached_buffers (want blocking s))
    kept true = send_cached-Sent s.read_cached_buffers (want true s) refl
    kept false = send_cached-Sent s.read_cached_buffers (want false s) refl

-- A blocking read of a socket that is not reading, while packets are kept, takes the first of them
-- and leaves everything else as it was: the handle does not start to read.
pub read-first :
    (start : Option UvError) (s : ReadSocket) (closing : Bool) (p : Packet) (ps : List Packet)
    → s.read_error ≡ none
    → s.has_noblocking_read ≡ false
    → s.blocking_read_count ≡ 0
    → s.read_cached_buffers ≡ p ∷ ps
    → read start closing true s
      ≡ record s { sent = s.sent ++ (packet_of p ∷ []); read_cached_buffers = ps }
unfolding finish_read send_cached
read-first start s closing p ps alive blocking idle kept =
    read_alive start s closing true alive ∙ rw (blocking, idle, kept) refl
