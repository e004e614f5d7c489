-- ===== src/TcpHandle/Listen/Served.antt =====
-- Connections and the demand for them.
use node_lua.Common.{
  ℕ, ◌+◌, ◌<◌, ◌^◌, ◌≡◌, refl, sym, ap, ◌∙◌, none, some, Bool, true, false, not, ◌&&◌, ◌||◌, ltb,
  ◌==◌, if◌then◌else◌, arith, Bool-cases, inl, inr, ltb→lt, lt→ltb,
}
use node_lua.RefSessions.{lua_refnil}
use node_lua.TcpHandle.{UvError}
use node_lua.TcpHandle.Listen.{
  ListenSocket, Outcome, not_accepted, not_sent, taken, wants, is_ready, take_client, try_accept,
  on_accept, want_client, accept,
}

-- The counts are exact: no connection waits while an accept does, each client sent has met one of the
-- blocking accepts, and each connection was sent, was closed, or waits. The socket has its reference.
pub record IsServed (s : ListenSocket) (accepts connections : ℕ) : Type 0 where
  pub named : (s.lua_ref == lua_refnil) ≡ false
  pub settled : (wants s && s.has_accept_event) ≡ false
  pub blocking : s.has_noblocking_accept ≡ false
  pub met : s.sent + s.blocking_accept_count ≡ accepts
  pub arrived : s.sent + s.closed + (if s.has_accept_event then 1 else 0) ≡ connections

and_left : (a b : Bool) → (a && b) ≡ true → a ≡ true
and_left true b e = refl
and_left false b e = absurd (cc)

and_right : (a b : Bool) → (a && b) ≡ true → b ≡ true
and_right true b e = e
and_right false b e = absurd (cc)

and_false : (a : Bool) → (a && false) ≡ false
and_false true = refl
and_false false = refl

-- A socket with its reference is ready when a connection and an accept wait.
named-ready :
    (s : ListenSocket)
    → (s.lua_ref == lua_refnil) ≡ false
    → is_ready s ≡ (wants s && s.has_accept_event)
named-ready s named = rw (named) refl

-- What an operation leaves to `try_accept`.
record IsOwed (s : ListenSocket) (accepts connections : ℕ) : Type 0 where
  named : (s.lua_ref == lua_refnil) ≡ false
  blocking : s.has_noblocking_accept ≡ false
  met : s.sent + s.blocking_accept_count ≡ accepts
  arrived : s.sent + s.closed + (if s.has_accept_event then 1 else 0) ≡ connections

try_accept-IsServed :
    (outcome : Outcome) (s : ListenSocket) (accepts connections : ℕ)
    → IsOwed s accepts connections
    → IsServed (try_accept outcome s) accepts connections
unfolding try_accept take_client
try_accept-IsServed outcome s accepts connections v = elim (Bool-cases (is_ready s)) [
  | inr idle ↦ rw (idle) (record {
    named = v.named;
    settled = sym (named-ready s v.named) ∙ idle;
    blocking = v.blocking;
    met = v.met;
    arrived = v.arrived;
  })
  | inl ready ↦ rw (ready) (took outcome ready)
]
  where
    has_ref : Bool
    has_ref = not (s.lua_ref == lua_refnil)

    event : is_ready s ≡ true → s.has_accept_event ≡ true
    event ready =
        and_right has_ref s.has_accept_event
          (and_right (wants s) (has_ref && s.has_accept_event) ready)

    demand : is_ready s ≡ true → 0 < s.blocking_accept_count
    demand ready = ltb→lt 0 s.blocking_accept_count (
        ap (λ b. b || ltb 0 s.blocking_accept_count) (sym v.blocking)
        ∙ and_left (wants s) (has_ref && s.has_accept_event) ready)

    idle_now :
        (t : ListenSocket) → t.has_accept_event ≡ false → (wants t && t.has_accept_event) ≡ false
    idle_now t none_left = rw (none_left) (and_false (wants t))

    gone : is_ready s ≡ true → s.sent + s.closed + 1 ≡ connections
    gone ready = ap (λ b. s.sent + s.closed + (if b then 1 else 0)) (sym (event ready)) ∙ v.arrived

    took :
        (outcome : Outcome)
        → is_ready s ≡ true
        → IsServed (take_client outcome (record s { has_accept_event = false })) accepts connections
    took not_accepted ready = record {
      named = v.named;
      settled = idle_now (record s { has_accept_event = false; closed = s.closed + 1 }) refl;
      blocking = v.blocking;
      met = v.met;
      arrived = omega (arith, gone ready);
    }
    took not_sent ready = record {
      named = v.named;
      settled = idle_now (record s { has_accept_event = false; closed = s.closed + 1 }) refl;
      blocking = v.blocking;
      met = v.met;
      arrived = omega (arith, gone ready);
    }
    took taken ready = record {
      named = v.named;
      settled = idle_now (take_client taken (record s { has_accept_event = false })) refl;
      blocking = v.blocking;
      met =
          rw (lt→ltb 0 s.blocking_accept_count (demand ready)) (omega (arith, v.met, demand ready));
      arrived = omega (arith, gone ready);
    }

-- The socket from its first listen on: connections that libuv reports, the next one only after
-- the last has been accepted, and blocking accepts that the context asks for.
pub data Listens (s₀ : ListenSocket) : ℕ → ℕ → ListenSocket → Type 0 where
  listening : Listens s₀ 0 0 s₀
  reported :
      (n m : ℕ) (s : ListenSocket) (closing : Bool) (outcome : Outcome)
      → Listens s₀ n m s
      → s.has_accept_event ≡ false
      → Listens s₀ n (m + 1) (on_accept none closing outcome s)
  errored :
      (n m : ℕ) (s : ListenSocket) (e : UvError) (closing : Bool) (outcome : Outcome)
      → Listens s₀ n m s
      → Listens s₀ n m (on_accept (some e) closing outcome s)
  asked :
      (n m : ℕ) (s : ListenSocket) (outcome : Outcome)
      → Listens s₀ n m s
      → n + 1 < 2 ^ 32
      → Listens s₀ (n + 1) m (accept true outcome s)

-- A listening socket of a context that accepts blocking, whose reference in Lua is set: after any `n` accepts (fewer than 2^32) and
-- any `m` connections in any order, no connection waits while an accept does; the clients sent and
-- the accepts that wait make up the `n`; and the clients sent, those closed and the one that waits,
-- if any, make up the `m`.
pub Listens-IsServed :
    (s₀ : ListenSocket) (n m : ℕ) (s : ListenSocket)
    → IsServed s₀ 0 0
    → Listens s₀ n m s
    → IsServed s n m
unfolding on_accept accept
Listens-IsServed s₀ _ _ _ v listening = v
Listens-IsServed s₀ _ _ _ v (reported n m s closing outcome before idle) =
    let now = Listens-IsServed s₀ n m s v before in
    try_accept-IsServed outcome (record s { has_accept_event = true }) n (m + 1)
      (record {
        named = now.named;
        blocking = now.blocking;
        met = now.met;
        arrived =
            omega (arith, now.arrived, ap (λ b. s.sent + s.closed + (if b then 1 else 0)) idle);
      })
Listens-IsServed s₀ _ _ _ v (errored n m s e true outcome before) =
    Listens-IsServed s₀ n m s v before
Listens-IsServed s₀ _ _ _ v (errored n m s e false outcome before) =
    let now = Listens-IsServed s₀ n m s v before in
    record {
      named = now.named;
      settled = now.settled;
      blocking = now.blocking;
      met = now.met;
      arrived = now.arrived;
    }
Listens-IsServed s₀ _ _ _ v (asked n m s outcome before small) =
    let now = Listens-IsServed s₀ n m s v before in
    try_accept-IsServed outcome (want_client true s) (n + 1) m (record {
      named = now.named;
      blocking = now.blocking;
      met = omega (arith, now.met, small);
      arrived = now.arrived;
    })
