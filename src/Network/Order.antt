-- ===== src/Network/Order.antt =====
-- Requests are handled in the order in which they were sent, each once, however the pipe cuts them.
use node_lua.Common.{
  ℕ, zero, suc, ◌+◌, ◌-◌, ◌<◌, ◌≤◌, ◌≡◌, refl, ap, sym, subst, ◌∙◌, min, List, [], ◌∷◌, ◌++◌,
  append_assoc, Bool, true, false, leb, ◌==◌, length, length-append, take, drop, take-append-drop,
  take-append, drop-append, length-take, arith, Bool-cases, inl, inr, ==_iff,
}
use node_lua.Network.{
  Request, send_request, Turn, ready, broken, Verdict, keeps, closes, within, After, to_request,
  also_handled, also_first, has_exit, recv_loop, recv_request, polls,
}

-- The bytes of requests that were sent one after the other.
abbrev pub sent : List Request → List ℕ
sent [] = []
sent (r ∷ rs) = send_request r ++ sent rs

-- What comes into the pipe in a script.
abbrev pub arrivals : List Turn → List ℕ
arrivals [] = []
arrivals (ready arrived most ∷ script) = arrived ++ arrivals script
arrivals (broken ∷ script) = arrivals script

-- The bytes that are still to be read are those of the requests `rs`, or of a request that is being read
-- and of others.
pub data Expects : ℕ → List ℕ → List ℕ → List Request → Type 0 where
  between :
      {filled stream : List ℕ} {rs : List Request}
      → stream ≡ sent rs
      → Expects zero filled stream rs
  inside :
      {filled stream : List ℕ} {rs : List Request} (r : Request)
      → length filled < suc (length r.body)
      → filled ++ stream ≡ (r.type ∷ r.body) ++ sent rs
      → Expects (suc (length r.body)) filled stream (r ∷ rs)

-- recv_request returns only between requests, or when the pipe is broken.
abbrev pub Left : Verdict → List ℕ → List Request → Type 0
Left keeps stream rest = Expects zero [] stream rest
Left (within need part) stream rest = Expects need part stream rest
Left closes stream rest = (need : ℕ) × (part : List ℕ) × Expects need part stream rest

-- What was handled is the beginning of `rs`; what is left of the bytes, with those of `later`, is the rest.
pub record InOrder (later : List ℕ) (rs : List Request) (a : After) : Type 0 where
  pub rest : List Request
  pub order : a.handled ++ rest ≡ rs
  pub left : Left a.verdict (a.unread ++ (arrivals a.script ++ later)) rest

-- Equal lists cut at the same place.
same_cut :
    (xs ys us vs : List ℕ) → xs ++ ys ≡ us ++ vs → length xs ≡ length us → (xs ≡ us) × (ys ≡ vs)
same_cut xs ys us vs e same = (
  sym (take-append (length us) xs ys same)
      ∙ ap (take (length us)) e
      ∙ take-append (length us) us vs refl,
  sym (drop-append (length us) xs ys same)
      ∙ ap (drop (length us)) e
      ∙ drop-append (length us) us vs refl,
)

-- The first byte of what was sent is the length of the first body.
first_sent :
    {C : Type 0} (b : ℕ) (more : List ℕ) (rs : List Request)
    → b ∷ more ≡ sent rs
    → ((r : Request) (others : List Request)
        → rs ≡ r ∷ others
        → b ≡ length r.body
        → more ≡ (r.type ∷ r.body) ++ sent others
        → C)
    → C
first_sent b more [] e goal = absurd (cc)
first_sent b more (r ∷ others) e goal = goal r others refl (cc) (cc)

nothing_done :
    {later : List ℕ} {rs : List Request} {unread : List ℕ} {script : List Turn} (v : Verdict)
    → Left v (unread ++ (arrivals script ++ later)) rs
    → InOrder later rs (record { handled = []; verdict = v; unread = unread; script = script })
nothing_done {rs} v left = record { rest = rs; order = refl; left = left }

one_more :
    {later : List ℕ} {rs : List Request} {a : After} (r : Request)
    → InOrder later rs a
    → InOrder later (r ∷ rs) (also_handled r a)
one_more r i = record { rest = i.rest; order = ap (λ l. r ∷ l) i.order; left = i.left }

pub not_full : (a b : ℕ) → a ≤ b → (a == b) ≡ false → a < b
not_full a b le ne = ground arith

pub stream_of :
    {filled stream : List ℕ} {rs : List Request} → Expects zero filled stream rs → stream ≡ sent rs
stream_of (between e) = e

regroup : (a b c d : List ℕ) → (a ++ b) ++ (c ++ d) ≡ a ++ ((b ++ c) ++ d)
regroup a b c d = append_assoc a b (c ++ d) ∙ ap (λ l. a ++ l) (sym (append_assoc b c d))

module _ (cpu_count : ℕ) (later : List ℕ) where
  -- The loop on a script, from anywhere.
  abbrev pub GoesOn : List Turn → Type 0
  GoesOn script =
      (need : ℕ) (filled : List ℕ) (processed : ℕ) (unread : List ℕ) (rs : List Request)
      → Expects need filled (unread ++ (arrivals script ++ later)) rs
      → InOrder later rs (recv_loop cpu_count need filled processed unread script)

  -- Where a length is read.
  at_length :
      (script : List Turn) (processed : ℕ) (rs : List Request) (readable : List ℕ)
      → GoesOn script
      → readable ++ (arrivals script ++ later) ≡ sent rs
      → InOrder later rs (elim readable [
        | [] ↦ record { handled = []; verdict = keeps; unread = []; script = script }
        | m_length ∷ more ↦ recv_loop cpu_count (suc m_length) [] processed more script
      ])
  at_length script processed rs [] again e = nothing_done keeps (between e)
  at_length script processed rs (b ∷ more) again e =
      first_sent b (more ++ (arrivals script ++ later)) rs e (λ r others is_first size stream.
        again (suc b) [] processed more rs (
          subst (λ l. Expects (suc b) [] (more ++ (arrivals script ++ later)) l) (sym is_first)
            (subst (λ n. Expects (suc n) [] (more ++ (arrivals script ++ later)) (r ∷ others))
              (sym size) (inside r (omega arith) stream))))

  -- Where the bytes of a request have been read, or some of them.
  at_body :
      (script : List Turn) (processed : ℕ) (r : Request) (others : List Request)
      (filled more : List ℕ)
      → GoesOn script
      → length filled ≤ suc (length r.body)
      → filled ++ (more ++ (arrivals script ++ later)) ≡ (r.type ∷ r.body) ++ sent others
      → InOrder later (r ∷ others) (elim (length filled == suc (length r.body)) [
        | false ↦ recv_loop cpu_count (suc (length r.body)) filled processed more script
        | true ↦ also_handled (to_request filled) (elim (leb cpu_count (processed + 1)) [
          | true ↦ record { handled = []; verdict = keeps; unread = more; script = script }
          | false ↦ recv_loop cpu_count zero [] (processed + 1) more script
        ])
      ])
  at_body script processed r others filled more again le e =
      elim (Bool-cases (length filled == suc (length r.body))) [
        | inr short ↦ rw short (
            again (suc (length r.body)) filled processed more (r ∷ others)
              (inside r (not_full (length filled) (suc (length r.body)) le short) e))
        | inl full ↦
            let (whole, rest) =
              same_cut filled (more ++ (arrivals script ++ later)) (r.type ∷ r.body) (sent others) e
                ((==_iff (length filled) (suc (length r.body))).0 full) in
            rw (full, whole) (one_more r (counted (leb cpu_count (processed + 1)) rest))
      ]
    where
      counted :
          (b : Bool)
          → more ++ (arrivals script ++ later) ≡ sent others
          → InOrder later others (elim b [
            | true ↦ record { handled = []; verdict = keeps; unread = more; script = script }
            | false ↦ recv_loop cpu_count zero [] (processed + 1) more script
          ])
      counted true rest = nothing_done keeps (between rest)
      counted false rest = again zero [] (processed + 1) more others (between rest)

  pub recv_loop-InOrder : (script : List Turn) → GoesOn script
  unfolding recv_loop
  recv_loop-InOrder [] need filled processed unread rs x = nothing_done (within need filled) x
  recv_loop-InOrder (broken ∷ script) need filled processed unread rs x =
      nothing_done closes (need, filled, x)
  recv_loop-InOrder (ready arrived most ∷ script) zero filled processed unread rs (between e) =
      at_length script processed rs (unread ++ arrived) (recv_loop-InOrder script)
        (regroup unread arrived (arrivals script) later ∙ e)
  recv_loop-InOrder (ready arrived most ∷ script) (suc need) filled processed unread rs
        (inside {rs = others} r lt e) =
      let readable = unread ++ arrived in
      let nbytes = min (suc need - length filled) (suc most) in
      at_body script processed r others (filled ++ take nbytes readable) (drop nbytes readable)
        (recv_loop-InOrder script)
        (omega
          (arith, lt, length-append filled (take nbytes readable), length-take nbytes readable))
        (append_assoc filled (take nbytes readable)
            (drop nbytes readable ++ (arrivals script ++ later))
          ∙ ap (λ l. filled ++ l)
              (sym (
                  append_assoc (take nbytes readable) (drop nbytes readable)
                    (arrivals script ++ later))
                ∙ ap (λ l. l ++ (arrivals script ++ later)) (take-append-drop nbytes readable)
                ∙ regroup unread arrived (arrivals script) later)
          ∙ e)

  after_poll :
      (fuel : ℕ) (rs : List Request) (a : After) (v : Verdict) (exits : Bool)
      → a.verdict ≡ v
      → ((rest : List Request)
          → Expects zero [] (a.unread ++ (arrivals a.script ++ later)) rest
          → InOrder later rest (polls cpu_count fuel a.unread a.script))
      → InOrder later rs a
      → InOrder later rs (elim v [
        | keeps ↦ elim exits [
          | true ↦ record a { verdict = closes }
          | false ↦ also_first a.handled (polls cpu_count fuel a.unread a.script)
        ]
        | closes ↦ a
        | within need_read filled ↦ a
      ])
  after_poll fuel rs a keeps true e next i = record {
    rest = i.rest;
    order = i.order;
    left =
        (zero, [], subst (λ v. Left v (a.unread ++ (arrivals a.script ++ later)) i.rest) e i.left);
  }
  after_poll fuel rs a keeps false e next i =
      let n =
        next i.rest
          (subst (λ v. Left v (a.unread ++ (arrivals a.script ++ later)) i.rest) e i.left) in
      record {
        rest = n.rest;
        order =
            append_assoc a.handled (polls cpu_count fuel a.unread a.script).handled n.rest
            ∙ ap (λ l. a.handled ++ l) n.order
            ∙ i.order;
        left = n.left;
      }
  after_poll fuel rs a closes b e next i = i
  after_poll fuel rs a (within n f) b e next i = i

  -- For every script, whatever `recv` gives at each call, and requests whose bytes come into the pipe one
  -- after the other, some of them before and some during the script: the requests that are handled are
  -- the first ones, in this order, each once; and what has not been read, with what is read of a request,
  -- are the bytes of the others.
  pub polls-InOrder :
      (fuel : ℕ) (unread : List ℕ) (script : List Turn) (rs : List Request)
      → unread ++ (arrivals script ++ later) ≡ sent rs
      → InOrder later rs (polls cpu_count fuel unread script)
  unfolding polls recv_request
  polls-InOrder zero unread script rs e = nothing_done keeps (between e)
  polls-InOrder (suc fuel) unread script rs e =
      let a = recv_request cpu_count unread script in
      after_poll fuel rs a a.verdict (has_exit a.handled) refl
        (λ rest x. polls-InOrder fuel a.unread a.script rest (stream_of x))
        (recv_loop-InOrder script zero [] 0 unread rs (between e))
