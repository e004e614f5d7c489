-- ===== src/Context/Schedule/Mailbox.antt =====
-- What `node_lua_t::context_send` and a pop of `worker_process` do to the messages that wait in the
-- mailbox of a context (src/message_queue.h).
use node_lua.Common.{
  ◌≡◌, refl, sym, ap, ap₂, subst, ◌∙◌, List, [], ◌∷◌, ◌++◌, append_assoc, append-nil, length,
  Option, none, some, Bool, true, false, ltb, if◌then◌else◌,
}
use node_lua.MessageQueue
use node_lua.MessageQueue.Fifo
use node_lua.MessageQueue.Fifo.{limit}
use node_lua.MessageQueue.Inv.{IsValid, pop-IsValid}
use node_lua.MessageQueue.Refine.{contents, push-IsValid, push_refines, pop_refines}
use node_lua.Context.{push_message, pop_message}
use node_lua.Context.Schedule.{Scheduled, after_push, send, after_pop, process}
use node_lua.Context.Schedule.Serve.{send_all}

module _ {ℓ} {A : Type ℓ} (blank : A) where
  abbrev pub waiting : Scheduled A → List A
  waiting s = contents blank s.context.queue

  fifo_push :
      (xs : List A) (m : A) → (Fifo.push xs m).1 ≡ xs ++ (if (Fifo.push xs m).0 then m ∷ [] else [])
  unfolding Fifo.push
  fifo_push xs m = answered (ltb (length xs) limit)
    where
      answer : Bool → Bool × List A
      answer b = if b then (true, xs ++ (m ∷ [])) else (false, xs)

      answered : (b : Bool) → (answer b).1 ≡ xs ++ (if (answer b).0 then m ∷ [] else [])
      answered true = refl
      answered false = sym (append-nil xs)

  -- A sent message is pushed to the mailbox.
  send-push :
      (s : Scheduled A) (m : A)
      → ((send blank s m).1.context.queue ≡ (MessageQueue.push blank s.context.queue m).1)
        × ((send blank s m).0 ≡ (MessageQueue.push blank s.context.queue m).0)
  unfolding send push_message after_push
  send-push s m = pushed (MessageQueue.push blank s.context.queue m).0 s.context.processing
    where
      q : MessageQueue.MessageQueue A
      q = (MessageQueue.push blank s.context.queue m).1

      pushed :
          (ok p : Bool)
          → let r = after_push s (
              if ok
              then (some p, record s.context { processing = true; queue = q })
              else (none, record s.context { queue = q })) in
            (r.1.context.queue ≡ q) × (r.0 ≡ ok)
      pushed true true = (refl, refl)
      pushed true false = (refl, refl)
      pushed false p = (refl, refl)

  send-waiting :
      (s : Scheduled A) (m : A)
      → IsValid s.context.queue
      → IsValid (send blank s m).1.context.queue
        × (waiting (send blank s m).1 ≡ waiting s ++ (if (send blank s m).0 then m ∷ [] else []))
  send-waiting s m v =
      let (queue, ok) = send-push s m in
      (
        subst IsValid (sym queue) (push-IsValid blank m v),
        ap (contents blank) queue
            ∙ ap (λ r. r.1) (push_refines blank m v)
            ∙ fifo_push (waiting s) m
            ∙ ap (λ b. waiting s ++ (if b then m ∷ [] else []))
                (sym (ok ∙ ap (λ r. r.0) (push_refines blank m v))),
      )

  pub send_all-waiting :
      (ms : List A) (s : Scheduled A)
      → IsValid s.context.queue
      → IsValid (send_all blank ms s).1.context.queue
        × (waiting (send_all blank ms s).1 ≡ waiting s ++ (send_all blank ms s).0)
  unfolding send_all
  send_all-waiting [] s v = (v, sym (append-nil (waiting s)))
  send_all-waiting (m ∷ ms) s v =
      let (v', one) = send-waiting s m v in
      let (v'', rest) = send_all-waiting ms (send blank s m).1 v' in
      (
        v'',
        rest
            ∙ ap (λ l. l ++ (send_all blank ms (send blank s m).1).0) one
            ∙ one_first (waiting s) m (send blank s m).0 (send_all blank ms (send blank s m).1).0,
      )
    where
      one_first :
          (xs : List A) (x : A) (b : Bool) (ys : List A)
          → (xs ++ (if b then x ∷ [] else [])) ++ ys ≡ xs ++ (if b then x ∷ ys else ys)
      one_first xs x true ys = append_assoc xs (x ∷ []) ys
      one_first xs x false ys = append_assoc xs [] ys

  -- A pop by the worker.
  pub process-pop :
      (s : Scheduled A)
      → ((process blank s).0 ≡ (MessageQueue.pop blank s.context.queue).0)
        × ((process blank s).1.context.queue ≡ (MessageQueue.pop blank s.context.queue).1)
        × ((process blank s).0 ≡ none → (process blank s).1.context.processing ≡ false)
  unfolding process pop_message after_pop
  process-pop s = popped (MessageQueue.pop blank s.context.queue).0
    where
      q : MessageQueue.MessageQueue A
      q = (MessageQueue.pop blank s.context.queue).1

      popped :
          (o : Option A)
          → let r = after_pop s (elim o [
            | some m ↦ (some m, record s.context { queue = q })
            | none ↦ (none, record s.context { processing = false; queue = q })
          ]) in
            (r.0 ≡ o) × (r.1.context.queue ≡ q) × (r.0 ≡ none → r.1.context.processing ≡ false)
      popped (some m) = (refl, refl, λ e. absurd (cc))
      popped none = (refl, refl, λ e. refl)

  -- What a pop takes off the messages that wait.
  pub process-waiting :
      (s : Scheduled A)
      → IsValid s.context.queue
      → IsValid (process blank s).1.context.queue
        × (((process blank s).0, waiting (process blank s).1) ≡ Fifo.pop (waiting s))
  process-waiting s v =
      let (found, queue, flag) = process-pop s in
      (
        subst IsValid (sym queue) (pop-IsValid blank v),
        ap₂ (λ o q. (o, contents blank q)) found queue ∙ pop_refines blank v,
      )

  pub fifo_pop-some : (xs : List A) (m : A) → (Fifo.pop xs).0 ≡ some m → xs ≡ m ∷ (Fifo.pop xs).1
  unfolding Fifo.pop
  fifo_pop-some [] m e = absurd (cc)
  fifo_pop-some (x ∷ xs) m e = ap (λ y. y ∷ xs) (cc)

  pub fifo_pop-none : (xs : List A) → (Fifo.pop xs).0 ≡ none → (xs ≡ []) × ((Fifo.pop xs).1 ≡ [])
  unfolding Fifo.pop
  fifo_pop-none [] e = (refl, refl)
  fifo_pop-none (x ∷ xs) e = absurd (cc)
