-- ===== src/TcpHandle/Write/Owned.antt =====
-- Who owns the data of a write, and who answers it.
use node_lua.Common.{
  ℕ, ◌+◌, ◌-◌, ◌≤◌, ◌≡◌, refl, sym, ap, ap₂, ◌∙◌, List, [], ◌∷◌, ◌++◌, Option, none, some, Bool,
  true, false, not, leb, ◌==◌, if◌then◌else◌, length, arith, Bool-cases, inl, inr,
}
use node_lua.Endian
use node_lua.RefSessions.{lua_refnil}
use node_lua.TcpHandle.{check_head_option_max, UvError}
use node_lua.TcpHandle.Write.{
  data_of, WriteRequest, WriteSocket, WriteResult, ok, too_long, no_shared, broken, Effects, Answer,
  Target, own, shared, missing, settle, on_write, write, write_to, write_handle, write_handle_in,
  start_write, respond, put_write_cached_request, tcp_write_uv_request_cache_max,
}

-- The sum of a weight over the requests of a list. Lists with equal sums for every weight hold the
-- same requests, each as often.
abbrev pub total : (WriteRequest → ℕ) → List WriteRequest → ℕ
total f [] = 0
total f (r ∷ rs) = f r + total f rs

total-append :
    (f : WriteRequest → ℕ) (xs ys : List WriteRequest)
    → total f (xs ++ ys) ≡ total f xs + total f ys
total-append f [] ys = omega arith
total-append f (x ∷ xs) ys = omega (arith, total-append f xs ys)

-- Who is to be answered for the requests of a list.
abbrev pub askers : List WriteRequest → List (ℕ × ℕ)
askers [] = []
askers (r ∷ rs) =
    if not (r.session == lua_refnil) then (r.source, r.session) ∷ askers rs else askers rs

abbrev pub answered : List Answer → List (ℕ × ℕ)
answered [] = []
answered (a ∷ xs) = (a.source, a.session) ∷ answered xs

askers-append : (xs ys : List WriteRequest) → askers (xs ++ ys) ≡ askers xs ++ askers ys
askers-append [] ys = refl
askers-append (r ∷ rs) ys = elim (Bool-cases (not (r.session == lua_refnil))) [
  | inl asked ↦ rw (asked) (ap (λ l. (r.source, r.session) ∷ l) (askers-append rs ys))
  | inr mute ↦ rw (mute) (askers-append rs ys)
]

answered-append : (xs ys : List Answer) → answered (xs ++ ys) ≡ answered xs ++ answered ys
answered-append [] ys = refl
answered-append (a ∷ xs) ys = ap (λ l. (a.source, a.session) ∷ l) (answered-append xs ys)

-- Each freed request that asked for an answer has had one, in this order, and no other has.
abbrev pub IsAnswered : Effects → Type 0
IsAnswered w = answered w.answers ≡ askers w.released

settle-IsAnswered :
    (r : WriteRequest) (result : WriteResult) (w : Effects)
    → IsAnswered w
    → IsAnswered (settle r result w)
settle-IsAnswered r result w a =
    answered-append w.answers (if asks then answer ∷ [] else [])
    ∙ ap₂ (λ l m. l ++ m) a (one asks)
    ∙ sym (askers-append w.released (r ∷ []))
  where
    asks : Bool
    asks = not (r.session == lua_refnil)

    answer : Answer
    answer = record { source = r.source; session = r.session; result = result }

    one :
        (b : Bool)
        → answered (if b then answer ∷ [] else []) ≡ (if b then (r.source, r.session) ∷ [] else [])
    one true = refl
    one false = refl

module _ (env : Endian.Order) where
  -- Requests that arrive at a socket, in order, and the callbacks of libuv, one for each request in
  -- flight and in any order.
  pub data Runs (s₀ : WriteSocket) (w₀ : Effects)
      : List WriteRequest → WriteSocket × Effects → Type 0 where
    start : Runs s₀ w₀ [] (s₀, w₀)
    writes :
        (rs : List WriteRequest) (target : Target) (result : Option UvError) (r : WriteRequest)
        (t : WriteSocket × Effects)
        → Runs s₀ w₀ rs t
        → Runs s₀ w₀ (rs ++ (r ∷ [])) (write env target result r t)
    calls :
        (rs : List WriteRequest) (status : Option UvError) (xs ys : List WriteRequest)
        (r : WriteRequest) (s : WriteSocket) (w : Effects)
        → Runs s₀ w₀ rs (s, w)
        → s.in_flight ≡ xs ++ (r ∷ ys)
        → Runs s₀ w₀ rs (on_write status r (record s { in_flight = xs ++ ys }, w))

  -- What a socket and its past hold of a weight.
  abbrev pub holds : (WriteRequest → ℕ) → WriteSocket × Effects → ℕ
  holds f (s, w) = total f s.in_flight + total f w.released

  on_write-holds :
      (f : WriteRequest → ℕ) (status : Option UvError) (r : WriteRequest) (s : WriteSocket)
      (w : Effects)
      → holds f (on_write status r (s, w)) ≡ holds f (s, w) + f r
  unfolding on_write
  on_write-holds f none r s w = omega (arith, total-append f w.released (r ∷ []))
  on_write-holds f (some e) r s w = omega (arith, total-append f w.released (r ∷ []))

  -- A call of `write_handle` puts the request in flight, or leaves the requests as they are.
  Handled : (WriteRequest → ℕ) → WriteRequest → WriteSocket → WriteSocket × WriteResult → Type 0
  Handled f r s (s', ok) = total f s'.in_flight ≡ total f s.in_flight + f r
  Handled f r s (s', _) = total f s'.in_flight ≡ total f s.in_flight

  write_handle-Handled :
      (f : WriteRequest → ℕ) (result : Option UvError) (r : WriteRequest) (s : WriteSocket)
      → Handled f r s (write_handle env result r s)
  unfolding write_handle Handled
  write_handle-Handled f result r s = by_error s.write_error result
    where
      by_error : (o result : Option UvError) → Handled f r s (write_handle_in env o result r s)
      by_error none none = total-append f s.in_flight (r ∷ []) ∙ omega arith
      by_error none (some e) = refl
      by_error (some e) result = refl

  write_to-Handled :
      (f : WriteRequest → ℕ) (target : Target) (result : Option UvError) (r : WriteRequest)
      (s : WriteSocket)
      → Handled f r s (write_to env target result r s)
  unfolding write_to Handled
  write_to-Handled f own result r s = write_handle-Handled f result r s
  write_to-Handled f missing result r s = refl
  write_to-Handled f shared result r s =
      by_length (not (check_head_option_max s.write_head_option (length (data_of r.payload))))
    where
      by_length :
          (b : Bool) → Handled f r s (if b then (s, too_long) else write_handle env result r s)
      by_length true = refl
      by_length false = write_handle-Handled f result r s

  respond-holds :
      (f : WriteRequest → ℕ) (r : WriteRequest) (s : WriteSocket) (p : WriteSocket × WriteResult)
      (w : Effects)
      → Handled f r s p
      → holds f (respond env r p w) ≡ holds f (s, w) + f r
  unfolding respond Handled
  respond-holds f r s (s', ok) w h = omega (arith, h)
  respond-holds f r s (s', too_long) w h = omega (arith, h, total-append f w.released (r ∷ []))
  respond-holds f r s (s', no_shared) w h = omega (arith, h, total-append f w.released (r ∷ []))
  respond-holds f r s (s', broken e) w h = omega (arith, h, total-append f w.released (r ∷ []))

  write-holds :
      (f : WriteRequest → ℕ) (target : Target) (result : Option UvError) (r : WriteRequest)
      (s : WriteSocket) (w : Effects)
      → holds f (write env target result r (s, w)) ≡ holds f (s, w) + f r
  unfolding write
  write-holds f target result r s w =
      respond-holds f r s (write_to env target result r s) w (write_to-Handled f target result r s)

  respond-IsAnswered :
      (r : WriteRequest) (p : WriteSocket × WriteResult) (w : Effects)
      → IsAnswered w
      → IsAnswered ((respond env r p w).1)
  unfolding respond
  respond-IsAnswered r (s', ok) w a = a
  respond-IsAnswered r (s', too_long) w a = settle-IsAnswered r too_long w a
  respond-IsAnswered r (s', no_shared) w a = settle-IsAnswered r no_shared w a
  respond-IsAnswered r (s', broken e) w a = settle-IsAnswered r (broken e) w a

  write-IsAnswered :
      (target : Target) (result : Option UvError) (r : WriteRequest) (s : WriteSocket) (w : Effects)
      → IsAnswered w
      → IsAnswered ((write env target result r (s, w)).1)
  unfolding write
  write-IsAnswered target result r s w a = respond-IsAnswered r (write_to env target result r s) w a

  on_write-IsAnswered :
      (status : Option UvError) (r : WriteRequest) (s : WriteSocket) (w : Effects)
      → IsAnswered w
      → IsAnswered ((on_write status r (s, w)).1)
  unfolding on_write
  on_write-IsAnswered none r s w a = settle-IsAnswered r ok w a
  on_write-IsAnswered (some e) r s w a = settle-IsAnswered r (broken e) w a

  -- However the writes to a socket, with their errors, and the callbacks of libuv follow each other,
  -- the string or buffer of each request is either in flight or has been freed, once: the requests in
  -- flight and those freed have, for every weight, the sum of the requests made. And the contexts
  -- have been answered for the freed ones that asked for it, each once and in this order.
  pub Runs-owned :
      (f : WriteRequest → ℕ) (s₀ : WriteSocket) (w₀ : Effects) (rs : List WriteRequest)
      (s : WriteSocket) (w : Effects)
      → IsAnswered w₀
      → Runs s₀ w₀ rs (s, w)
      → (holds f (s, w) ≡ holds f (s₀, w₀) + total f rs) × IsAnswered w
  Runs-owned f s₀ w₀ rs s w a run = owned rs (s, w) run
    where
      owned :
          (rs : List WriteRequest) (t : WriteSocket × Effects)
          → Runs s₀ w₀ rs t
          → (holds f t ≡ holds f (s₀, w₀) + total f rs) × IsAnswered t.1
      owned _ _ start = (omega arith, a)
      owned _ _ (writes rs' target result r (s', w') before) =
          let (held, answered') = owned rs' (s', w') before in
          (
            omega (arith, held, write-holds f target result r s' w', total-append f rs' (r ∷ [])),
            write-IsAnswered target result r s' w' answered',
          )
      owned rs' _ (calls _ status xs ys r s' w' before split) =
          let (held, answered') = owned rs' (s', w') before in
          (
            omega (
              arith,
              held,
              on_write-holds f status r (record s' { in_flight = xs ++ ys }) w',
              total-append f xs ys,
              total-append f xs (r ∷ ys),
              ap (total f) split,
            ),
            on_write-IsAnswered status r (record s' { in_flight = xs ++ ys }) w' answered',
          )

  cached_bounds : (n : ℕ) → n ≤ 32 → (if leb 32 n then n - 1 else n) + 1 ≤ 32
  cached_bounds n le = ground arith

  put_bounds :
      (s : WriteSocket)
      → s.write_cached_reqs ≤ 32
      → (put_write_cached_request s).write_cached_reqs ≤ 32
  put_bounds s le = cached_bounds s.write_cached_reqs le

  write_handle_bounds :
      (o result : Option UvError) (r : WriteRequest) (s : WriteSocket)
      → s.write_cached_reqs ≤ 32
      → (write_handle_in env o result r s).0.write_cached_reqs ≤ 32
  unfolding write_handle_in start_write
  write_handle_bounds none none r s le = omega (arith, le)
  write_handle_bounds none (some e) r s le =
      cached_bounds (s.write_cached_reqs - 1) (omega (arith, le))
  write_handle_bounds (some e) result r s le = le

  write_bounds :
      (target : Target) (result : Option UvError) (r : WriteRequest) (s : WriteSocket) (w : Effects)
      → s.write_cached_reqs ≤ 32
      → (write env target result r (s, w)).0.write_cached_reqs ≤ 32
  unfolding write write_to write_handle
  write_bounds target result r s w le =
      rw (respond_socket r (write_to env target result r s) w) (by_target target)
    where
      respond_socket :
          (r : WriteRequest) (p : WriteSocket × WriteResult) (w : Effects)
          → (respond env r p w).0 ≡ p.0
      respond_socket r (s', ok) w = refl
      respond_socket r (s', too_long) w = refl
      respond_socket r (s', no_shared) w = refl
      respond_socket r (s', broken e) w = refl

      by_length :
          (b : Bool)
          → (if b
              then (s, too_long)
              else write_handle_in env s.write_error result r s).0.write_cached_reqs
            ≤ 32
      by_length true = le
      by_length false = write_handle_bounds s.write_error result r s le

      by_target : (target : Target) → (write_to env target result r s).0.write_cached_reqs ≤ 32
      by_target own = write_handle_bounds s.write_error result r s le
      by_target shared =
          by_length (not (check_head_option_max s.write_head_option (length (data_of r.payload))))
      by_target missing = le

  -- A socket that starts with at most 32 requests in its cache never keeps more.
  pub Runs-cached :
      (s₀ : WriteSocket) (w₀ : Effects) (rs : List WriteRequest) (s : WriteSocket) (w : Effects)
      → s₀.write_cached_reqs ≤ tcp_write_uv_request_cache_max
      → Runs s₀ w₀ rs (s, w)
      → s.write_cached_reqs ≤ tcp_write_uv_request_cache_max
  unfolding on_write
  Runs-cached s₀ w₀ rs s w bound run = cached rs (s, w) run
    where
      cached :
          (rs : List WriteRequest) (t : WriteSocket × Effects)
          → Runs s₀ w₀ rs t
          → t.0.write_cached_reqs ≤ 32
      cached _ _ start = bound
      cached _ _ (writes rs' target result r (s', w') before) =
          write_bounds target result r s' w' (cached rs' (s', w') before)
      cached rs' _ (calls _ none xs ys r s' w' before split) =
          put_bounds s' (cached rs' (s', w') before)
      cached rs' _ (calls _ (some e) xs ys r s' w' before split) =
          put_bounds s' (cached rs' (s', w') before)
