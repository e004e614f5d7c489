-- ===== src/Network/Progress.antt =====
-- Everything that is in the pipe is handled.
use node_lua.Common.{◌||◌, true, false, ◌≢◌}
use node_lua.Common.{
  ℕ, zero, suc, ◌+◌, ◌-◌, ◌<◌, ◌≤◌, ◌≡◌, refl, ap, ap₂, sym, subst, ◌∙◌, min, List, [], ◌∷◌, ◌++◌,
  append-nil, Bool, true, false, leb, ◌==◌, length, length-append, take, drop, length-take,
  length-drop, arith, Bool-cases, inl, inr,
}
use node_lua.Network.{
  Request, Turn, ready, Verdict, keeps, closes, within, After, to_request, also_handled, recv_loop,
  recv_request, polls, serve_pipe, has_exit, also_first,
}
use node_lua.Network.Order.{
  sent, arrivals, Expects, between, inside, Left, stream_of, recv_loop-InOrder, polls-InOrder,
  not_full,
}

-- Turns at which nothing more comes into the pipe, and `recv` returns at most one byte more than the
-- number says.
abbrev pub quiet : List ℕ → List Turn
quiet [] = []
quiet (most ∷ ms) = ready [] most ∷ quiet ms

-- There is something to ask `recv` for.
abbrev pub HasRoom : ℕ → List ℕ → Type 0
HasRoom zero filled = Unit {0}
HasRoom (suc n) filled = length filled < suc n

abbrev pub IsOpen : Verdict → ℕ → ℕ → Type 0
IsOpen keeps left all = left < all
IsOpen closes left all = ⊥
IsOpen (within need filled) left all = left ≡ 0

-- Each turn that was used took a byte, as long as there were any.
pub record Reads (bytes : ℕ) (ms : List ℕ) (a : After) : Type 0 where
  pub later : List ℕ
  pub script_is : a.script ≡ quiet later
  pub fewer : length later ≤ length ms
  pub taken : length a.unread ≤ bytes - (length ms - length later)
  pub is_open : IsOpen a.verdict (length later) (length ms)

wider : (left all : ℕ) (v : Verdict) → IsOpen v left all → IsOpen v left (suc all)
wider left all keeps lt = omega (arith, lt)
wider left all closes e = e
wider left all (within need filled) e = e

one_turn :
    {bytes bytes' m : ℕ} {ms : List ℕ} {a : After}
    → bytes' ≤ bytes - 1
    → Reads bytes' ms a
    → Reads bytes (m ∷ ms) a
one_turn {ms} {a} le r = record {
  later = r.later;
  script_is = r.script_is;
  fewer = omega (arith, r.fewer);
  taken = omega (arith, r.taken, r.fewer, le);
  is_open = wider (length r.later) (length ms) a.verdict r.is_open;
}

returns :
    {bytes m : ℕ} {ms : List ℕ} {unread : List ℕ}
    → length unread ≤ bytes - 1
    → Reads bytes
        (m ∷ ms)
        (record { handled = []; verdict = keeps; unread = unread; script = quiet ms })
returns {ms} le = record {
  later = ms;
  script_is = refl;
  fewer = omega arith;
  taken = omega (arith, le);
  is_open = omega arith;
}

also :
    {bytes : ℕ} {ms : List ℕ} {a : After} (q : Request)
    → Reads bytes ms a
    → Reads bytes ms (also_handled q a)
also q r = record {
  later = r.later;
  script_is = r.script_is;
  fewer = r.fewer;
  taken = r.taken;
  is_open = r.is_open;
}

abbrev IsDrained : After → Type 0
IsDrained a = (length a.unread ≡ 0) × (arrivals a.script ≡ [])

arrivals-quiet : (ms : List ℕ) → arrivals (quiet ms) ≡ []
arrivals-quiet [] = refl
arrivals-quiet (m ∷ ms) = arrivals-quiet ms

length-quiet : (ms : List ℕ) → length (quiet ms) ≡ length ms
length-quiet [] = refl
length-quiet (m ∷ ms) = ap suc (length-quiet ms)

no_bytes : (xs : List ℕ) → length xs ≡ 0 → xs ≡ []
no_bytes [] e = refl
no_bytes (x ∷ xs) e = absurd (omega (arith, e))

-- When no byte is left, no request is.
nothing_expected :
    {need : ℕ} {part : List ℕ} {rest : List Request} → Expects need part [] rest → rest ≡ []
nothing_expected {rest = []} x = refl
nothing_expected {rest = r ∷ rest} (between e) = absurd (cc)
nothing_expected {part} {rest = _ ∷ rest} (inside {rs} r lt e) =
    absurd
      (omega (arith, lt, ap length (sym (append-nil part) ∙ e), length-append r.body (sent rs)))

all_read : {rest : List Request} (v : Verdict) → Left v [] rest → rest ≡ []
all_read keeps x = nothing_expected x
all_read closes (need, part, x) = nothing_expected x
all_read (within need part) x = nothing_expected x

all_unread : (ms unread : List ℕ) → unread ++ (arrivals (quiet ms) ++ []) ≡ unread
all_unread ms unread = ap (λ l. unread ++ (l ++ [])) (arrivals-quiet ms) ∙ append-nil unread

has_exit-append :
    (xs ys : List Request)
    → has_exit (xs ++ ys) ≡ false
    → (has_exit xs ≡ false) × (has_exit ys ≡ false)
has_exit-append [] ys e = (refl, e)
has_exit-append (r ∷ xs) ys e = elim (Bool-cases (r.type == 0)) [
  | inl exits ↦ absurd (true_false (ap (λ b. b || has_exit (xs ++ ys)) (sym exits) ∙ e))
  | inr other ↦
      let (here, there) =
        has_exit-append xs ys (ap (λ b. b || has_exit (xs ++ ys)) (sym other) ∙ e) in
      (ap (λ b. b || has_exit xs) other ∙ here, there)
]
  where
    true_false : true ≢ false
    true_false e = cc

module _ (cpu_count : ℕ) where
  abbrev pub Goes : List ℕ → Type 0
  Goes ms =
      (need : ℕ) (filled : List ℕ) (processed : ℕ) (unread : List ℕ)
      → HasRoom need filled
      → Reads (length unread) ms (recv_loop cpu_count need filled processed unread (quiet ms))

  length-Reads :
      (m : ℕ) (ms : List ℕ) (processed bytes : ℕ) (readable : List ℕ)
      → Goes ms
      → length readable ≡ bytes
      → Reads bytes (m ∷ ms) (elim readable [
        | [] ↦ record { handled = []; verdict = keeps; unread = []; script = quiet ms }
        | m_length ∷ more ↦ recv_loop cpu_count (suc m_length) [] processed more (quiet ms)
      ])
  length-Reads m ms processed bytes [] again e = returns (omega arith)
  length-Reads m ms processed bytes (b ∷ more) again e =
      one_turn (omega (arith, e)) (again (suc b) [] processed more (omega arith))

  body-Reads :
      (m : ℕ) (ms : List ℕ) (need processed bytes : ℕ) (filled more : List ℕ)
      → Goes ms
      → length filled ≤ suc need
      → length more ≤ bytes - 1
      → Reads bytes (m ∷ ms) (elim (length filled == suc need) [
        | false ↦ recv_loop cpu_count (suc need) filled processed more (quiet ms)
        | true ↦ also_handled (to_request filled) (elim (leb cpu_count (processed + 1)) [
          | true ↦ record { handled = []; verdict = keeps; unread = more; script = quiet ms }
          | false ↦ recv_loop cpu_count zero [] (processed + 1) more (quiet ms)
        ])
      ])
  body-Reads m ms need processed bytes filled more again le less =
      elim (Bool-cases (length filled == suc need)) [
        | inr short ↦ rw short (
            one_turn less (
              again (suc need) filled processed more
                (not_full (length filled) (suc need) le short)))
        | inl full ↦ rw full (counted (leb cpu_count (processed + 1)))
      ]
    where
      counted :
          (b : Bool)
          → Reads bytes (m ∷ ms) (
              also_handled (to_request filled) (elim b [
                | true ↦ record { handled = []; verdict = keeps; unread = more; script = quiet ms }
                | false ↦ recv_loop cpu_count zero [] (processed + 1) more (quiet ms)
              ]))
      counted true = also (to_request filled) (returns less)
      counted false =
          also (to_request filled) (one_turn less (again zero [] (processed + 1) more tt))

  recv_loop-Reads : (ms : List ℕ) → Goes ms
  unfolding recv_loop
  recv_loop-Reads [] need filled processed unread room = record {
    later = [];
    script_is = refl;
    fewer = omega arith;
    taken = omega arith;
    is_open = refl;
  }
  recv_loop-Reads (m ∷ ms) zero filled processed unread room =
      length-Reads m ms processed (length unread) (unread ++ []) (recv_loop-Reads ms)
        (ap length (append-nil unread))
  recv_loop-Reads (m ∷ ms) (suc need) filled processed unread room =
      let readable = unread ++ [] in
      let nbytes = min (suc need - length filled) (suc m) in
      body-Reads m ms need processed (length unread) (filled ++ take nbytes readable)
        (drop nbytes readable) (recv_loop-Reads ms)
        (omega
          (arith, room, length-append filled (take nbytes readable), length-take nbytes readable))
        (omega (arith, room, length-drop nbytes readable, ap length (append-nil unread)))

  poll-IsDrained :
      (fuel bytes : ℕ) (ms : List ℕ) (a : After) (v : Verdict)
      → a.verdict ≡ v
      → has_exit a.handled ≡ false
      → bytes ≤ length ms
      → Reads bytes ms a
      → (a.verdict ≡ keeps
          → (later : List ℕ) → length later < length ms
          → length a.unread ≤ length later
          → a.script ≡ quiet later
          → IsDrained (polls cpu_count fuel a.unread a.script))
      → IsDrained (elim v [
        | keeps ↦ elim (has_exit a.handled) [
          | true ↦ record a { verdict = closes }
          | false ↦ also_first a.handled (polls cpu_count fuel a.unread a.script)
        ]
        | closes ↦ a
        | within need_read filled ↦ a
      ])
  poll-IsDrained fuel bytes ms a keeps e stays le r next = rw (stays) (
      next e r.later (subst (λ v. IsOpen v (length r.later) (length ms)) e r.is_open)
        (omega (arith, r.taken, r.fewer, le)) r.script_is)
  poll-IsDrained fuel bytes ms a closes e stays le r next =
      absurd (subst (λ v. IsOpen v (length r.later) (length ms)) e r.is_open)
  poll-IsDrained fuel bytes ms a (within n f) e stays le r next =
      let none_left = subst (λ v. IsOpen v (length r.later) (length ms)) e r.is_open in
      (omega (arith, r.taken, le, none_left), ap arrivals r.script_is ∙ arrivals-quiet r.later)

  -- What is unread between two polls are the bytes of the rest.
  unread_sent :
      (a : After) (rest : List Request) (later : List ℕ)
      → Left keeps (a.unread ++ (arrivals a.script ++ [])) rest
      → a.script ≡ quiet later
      → a.unread ≡ sent rest
  unread_sent a rest later left script_is =
      sym (append-nil a.unread)
      ∙ ap (λ l. a.unread ++ (l ++ [])) (sym (ap arrivals script_is ∙ arrivals-quiet later))
      ∙ stream_of left

  polls-IsDrained :
      (fuel : ℕ) (ms unread : List ℕ) (rs : List Request)
      → length ms < fuel
      → length unread ≤ length ms
      → unread ≡ sent rs
      → has_exit rs ≡ false
      → IsDrained (polls cpu_count fuel unread (quiet ms))
  unfolding polls recv_request
  polls-IsDrained zero ms unread rs lt le e stays = absurd (omega (arith, lt))
  polls-IsDrained (suc fuel) ms unread rs lt le e stays =
      let a = recv_request cpu_count unread (quiet ms) in
      let i =
        recv_loop-InOrder cpu_count [] (quiet ms) zero [] 0 unread rs
          (between (all_unread ms unread ∙ e)) in
      let (now, then) = has_exit-append a.handled i.rest (ap has_exit i.order ∙ stays) in
      poll-IsDrained fuel (length unread) ms a a.verdict refl now le
        (recv_loop-Reads ms zero [] 0 unread tt)
        (λ keep later fewer less script_is.
          subst (λ s. IsDrained (polls cpu_count fuel a.unread s)) (sym script_is)
            (polls-IsDrained fuel later a.unread i.rest (omega (arith, fewer, lt)) less
              (unread_sent a i.rest later
                (subst (λ v. Left v (a.unread ++ (arrivals a.script ++ [])) i.rest) keep i.left)
                script_is)
              then))

  -- The bytes of some requests, none of them REQUEST_EXIT, are in the pipe, and nothing more comes: when
  -- `recv` is called as often as there are bytes, however few it returns at each call, all the requests
  -- are handled, in the order in which they were sent, each once.
  pub serve_pipe-all :
      (rs : List Request) (ms : List ℕ)
      → has_exit rs ≡ false
      → length (sent rs) ≤ length ms
      → (serve_pipe cpu_count (sent rs) (quiet ms)).handled ≡ rs
  unfolding serve_pipe
  serve_pipe-all rs ms stays le =
      let a = serve_pipe cpu_count (sent rs) (quiet ms) in
      let i =
        polls-InOrder cpu_count [] (suc (length (quiet ms))) (sent rs) (quiet ms) rs
          (all_unread ms (sent rs)) in
      let (empty, none_come) =
        polls-IsDrained (suc (length (quiet ms))) ms (sent rs) rs (omega (arith, length-quiet ms))
          le refl stays in
      sym (
        ap (λ l. a.handled ++ l)
          (all_read a.verdict (
            subst (λ l. Left a.verdict l i.rest)
              (ap₂ (λ u l. u ++ (l ++ [])) (no_bytes a.unread empty) none_come) i.left))
        ∙ append-nil a.handled)
      ∙ i.order
