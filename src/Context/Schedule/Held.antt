-- ===== src/Context/Schedule/Held.antt =====
-- A context is with one sender that puts it into a run queue, in one run queue or with one worker exactly
-- while `m_processing` is set.
use node_lua.Common.{
  ℕ, ◌+◌, ◌-◌, ◌<◌, ◌≤◌, ◌≡◌, ◌≢◌, refl, ap, sym, subst, ◌∙◌, List, [], ◌∷◌, ◌++◌, length, Option,
  none, some, Bool, true, false, not, ◌&&◌, ◌||◌, ◌==◌, if◌then◌else◌, arith, inl, inr, ltb,
  Bool-cases,
}
use node_lua.Common.Words.{sub64}
use node_lua.MessageQueue
use node_lua.MessageQueue.Fifo
use node_lua.MessageQueue.Fifo.{limit}
use node_lua.MessageQueue.Inv.{IsValid, pop-IsValid}
use node_lua.MessageQueue.Refine.{contents, push-IsValid, push_refines, pop_refines}
use node_lua.Context.{release, push_message, pop_message}
use node_lua.Context.Schedule.{
  Scheduled, tests, after_push, send, put_in_queue, take_from_queue, give_back, after_pop, process,
  let_go, Reaches, here, tested, sent, pushed, taken, worked, returned, released,
}

unsome {ℓ} : {A : Type ℓ} {a b : A} → some a ≡ some b → a ≡ b
unsome e = cc

module _ {ℓ} {A : Type ℓ} (blank : A) where
  -- In how many places it is that lead to a worker.
  abbrev pub holders : Scheduled A → ℕ
  holders s = s.pushing + s.queued + s.running

  -- The context is held exactly when its flag says so, once, and an idle one has no messages.
  pub record IsHeld (s : Scheduled A) : Type ℓ where
    pub valid : IsValid s.context.queue
    pub once : holders s ≡ (if s.context.processing then 1 else 0)
    pub idle : s.context.processing ≡ false → contents blank s.context.queue ≡ []

  -- A refused push changes nothing, and a pop that finds nothing leaves nothing.
  refused_same : (xs : List A) (m : A) → (Fifo.push xs m).0 ≡ false → (Fifo.push xs m).1 ≡ xs
  unfolding Fifo.push
  refused_same xs m e = elim (Bool-cases (ltb (length xs) limit)) [
    | inl below ↦ absurd (differ (sym (ap (λ b. (answer b).0) below) ∙ e))
    | inr full ↦ ap (λ b. (answer b).1) full
  ]
    where
      answer : Bool → Bool × List A
      answer b = if b then (true, xs ++ (m ∷ [])) else (false, xs)

      differ : true ≢ false
      differ d = cc

  none_left : (xs : List A) → (Fifo.pop xs).0 ≡ none → (Fifo.pop xs).1 ≡ []
  unfolding Fifo.pop
  none_left [] e = refl
  none_left (x ∷ xs) e = absurd (cc)

  after_push-IsHeld :
      (s : Scheduled A) (p : Bool) (q : MessageQueue.MessageQueue A)
      → IsHeld s
      → IsValid q
      → s.context.processing ≡ p
      → IsHeld (after_push s (some p, record s.context { processing = true; queue = q })).1
  unfolding after_push
  after_push-IsHeld s true q v w e = record {
    valid = w;
    once = v.once ∙ ap (λ k. if k then 1 else 0) e;
    idle = λ f. absurd (cc);
  }
  after_push-IsHeld s false q v w e = record {
    valid = w;
    once = omega (arith, v.once ∙ ap (λ k. if k then 1 else 0) e);
    idle = λ f. absurd (cc);
  }

  send-IsHeld : (s : Scheduled A) (m : A) → IsHeld s → IsHeld (send blank s m).1
  unfolding send push_message after_push
  send-IsHeld s m v = elim (Bool-cases (MessageQueue.push blank s.context.queue m).0) [
    | inl ok ↦
        rw (ok) (after_push-IsHeld s s.context.processing _ v (push-IsValid blank m v.valid) refl)
    | inr full ↦ rw (full) (record {
      valid = push-IsValid blank m v.valid;
      once = v.once;
      idle = λ e.
          ap (λ r. r.1) (push_refines blank m v.valid)
          ∙ refused_same (contents blank s.context.queue) m
              (sym (ap (λ r. r.0) (push_refines blank m v.valid)) ∙ full)
          ∙ v.idle e;
    })
  ]

  tests-IsHeld : (s : Scheduled A) (source : ℕ) → IsHeld s → IsHeld (tests s source)
  unfolding tests
  tests-IsHeld s source v =
      tested_as (not (s.context.handle == 0) && (s.context.inited || (s.context.handle == source)))
    where
      tested_as : (b : Bool) → IsHeld (if b then record s { sending = s.sending + 1 } else s)
      tested_as true = record { valid = v.valid; once = v.once; idle = v.idle }
      tested_as false = v

  -- No context is in two places.
  at_most_one : (s : Scheduled A) → IsHeld s → holders s ≤ 1
  at_most_one s v = elim (Bool-cases s.context.processing) [
    | inl held ↦ omega (arith, v.once ∙ ap (λ k. if k then 1 else 0) held)
    | inr free ↦ omega (arith, v.once ∙ ap (λ k. if k then 1 else 0) free)
  ]

  popped-IsHeld :
      (s : Scheduled A) (message : Option A) (q : MessageQueue.MessageQueue A)
      → 0 < s.running
      → IsHeld s
      → IsValid q
      → (message ≡ none → contents blank q ≡ [])
      → IsHeld
          (after_pop s (elim message [
            | some m ↦ (some m, record s.context { queue = q })
            | none ↦ (none, record s.context { processing = false; queue = q })
          ])).1
  unfolding after_pop
  popped-IsHeld s (some m) q pos v w left = record {
    valid = w;
    once = v.once;
    idle = λ f. absurd (omega (arith, pos, v.once ∙ ap (λ k. if k then 1 else 0) f));
  }
  popped-IsHeld s none q pos v w left = record {
    valid = w;
    once = omega (arith, pos, at_most_one s v);
    idle = λ _. left refl;
  }

  process-IsHeld : (s : Scheduled A) → 0 < s.running → IsHeld s → IsHeld (process blank s).1
  unfolding process pop_message
  process-IsHeld s pos v =
      popped-IsHeld s (MessageQueue.pop blank s.context.queue).0
        (MessageQueue.pop blank s.context.queue).1 pos v (pop-IsValid blank v.valid)
        (λ n.
          ap (λ r. r.1) (pop_refines blank v.valid)
          ∙ none_left (contents blank s.context.queue)
              (sym (ap (λ r. r.0) (pop_refines blank v.valid)) ∙ n))

  let_go-IsHeld : (s s' : Scheduled A) → IsHeld s → let_go s ≡ some s' → IsHeld s'
  unfolding let_go release
  let_go-IsHeld s s' v e = freed (s.context.ref == 1) e
    where
      freed :
          (b : Bool)
          → (elim (if b then none else some (record s.context { ref = sub64 s.context.ref 1 }))
              as (λ _. Option (Scheduled A)) [
                | none ↦ none
                | some c ↦ some (record s { context = c; leaving = s.leaving - 1 })
              ])
            ≡ some s'
          → IsHeld s'
      freed true e' = absurd (cc)
      freed false e' =
          subst IsHeld (unsome e') (record { valid = v.valid; once = v.once; idle = v.idle })

  Reaches-IsHeld : (s s' : Scheduled A) → Reaches blank s s' → IsHeld s → IsHeld s'
  unfolding put_in_queue take_from_queue give_back
  Reaches-IsHeld s _ here v = v
  Reaches-IsHeld s _ (tested s' source r) v = tests-IsHeld s' source (Reaches-IsHeld s s' r v)
  Reaches-IsHeld s _ (sent s' m r pos) v =
      let w = send-IsHeld s' m (Reaches-IsHeld s s' r v) in
      record { valid = w.valid; once = w.once; idle = w.idle }
  Reaches-IsHeld s _ (pushed s' r pos) v =
      let w = Reaches-IsHeld s s' r v in
      record { valid = w.valid; once = omega (arith, w.once, pos); idle = w.idle }
  Reaches-IsHeld s _ (taken s' r pos) v =
      let w = Reaches-IsHeld s s' r v in
      record { valid = w.valid; once = omega (arith, w.once, pos); idle = w.idle }
  Reaches-IsHeld s _ (worked s' r pos) v = process-IsHeld s' pos (Reaches-IsHeld s s' r v)
  Reaches-IsHeld s _ (returned s' r pos) v =
      let w = Reaches-IsHeld s s' r v in
      record { valid = w.valid; once = omega (arith, w.once, pos); idle = w.idle }
  Reaches-IsHeld s s'' (released s' _ r pos e) v = let_go-IsHeld s' s'' (Reaches-IsHeld s s' r v) e

  -- In one place at most, and in one while it has messages.
  abbrev pub IsPlaced : Scheduled A → Type ℓ
  IsPlaced s = (holders s ≤ 1) × (contents blank s.context.queue ≢ [] → holders s ≡ 1)

  -- From a context that is held as its flag says, whatever senders and workers do, in whatever order of
  -- their critical sections, until it is deleted: at most one sender is about to put it into a run
  -- queue, one run queue has it or one worker, never two of these; and while it has messages, one of
  -- them has it.
  pub Reaches-IsPlaced : (s s' : Scheduled A) → IsHeld s → Reaches blank s s' → IsPlaced s'
  Reaches-IsPlaced s s' v r = (
    at_most_one s' w,
    λ some_left. elim (Bool-cases s'.context.processing) [
      | inl held ↦ w.once ∙ ap (λ k. if k then 1 else 0) held
      | inr free ↦ absurd (some_left (w.idle free))
    ],
  )
    where
      w : IsHeld s'
      w = Reaches-IsHeld s s' r v
