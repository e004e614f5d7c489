-- ===== src/Context/Schedule/Served.antt =====
-- The loop of `worker_process` (src/worker_mgr.cpp) over the messages of one context: their order,
-- and when it ends.
use node_lua.Common.{
  ℕ, ◌+◌, ◌≤◌, ◌≡◌, List, [], ◌∷◌, ◌++◌, map, length, take, drop, ◌<◌, ◌^◌, Bool, true, false,
}
use node_lua.Context.Schedule.{Scheduled}
use node_lua.Context.Schedule.Serve.{
  Round, Handling, Ending, Service, emptied, given_back, going_on, max_message_proc_num, handler_of,
}
use node_lua.Context.Schedule.Mailbox.{waiting}

-- What round `i` shows when the loop goes on: fewer than 8 rounds are done, or no context waits in the
-- run queue (its length, an int32_t, is not positive), or the context is retired.
pub data GoesOn {ℓ} {A : Type ℓ} (i : ℕ) (r : Round A) : Type 0 where
  in_limit : i < max_message_proc_num → GoesOn i r
  none_waits : r.queue_length ≡ 0 → GoesOn i r
  negative_length : 2 ^ 31 ≤ r.queue_length → GoesOn i r
  retired : r.valid_before ≡ false → GoesOn i r

-- What it shows when the context is given back.
pub record GivesBack {ℓ} {A : Type ℓ} (i : ℕ) (r : Round A) : Type 0 where
  pub at_limit : max_message_proc_num ≤ i
  pub others_wait : 0 < r.queue_length
  pub length_bound : r.queue_length < 2 ^ 31
  pub registered : r.valid_before ≡ true

-- The rounds from `i` that the loop went through.
pub data WentOn {ℓ} {A : Type ℓ} : ℕ → List (Round A) → Type ℓ where
  no_round : {i : ℕ} → WentOn i []
  one_more :
      {i : ℕ} {r : Round A} {rounds : List (Round A)}
      → GoesOn i r
      → WentOn (i + 1) rounds
      → WentOn i (r ∷ rounds)

-- What is left at an ending in round `i`: of the rounds, of the messages and of the flag.
pub data EndsWith {ℓ} {A : Type ℓ} : Ending → ℕ → List (Round A) → List A → Bool → Type ℓ where
  ends_emptied :
      {i : ℕ} {r : Round A} {rounds : List (Round A)} {left : List A} {processing : Bool}
      → GoesOn i r
      → left ≡ []
      → processing ≡ false
      → EndsWith emptied i (r ∷ rounds) left processing
  ends_given_back :
      {i : ℕ} {r : Round A} {rounds : List (Round A)} {left : List A} {processing : Bool}
      → GivesBack i r
      → EndsWith given_back i (r ∷ rounds) left processing
  ends_going_on :
      {i : ℕ} {left : List A} {processing : Bool} → EndsWith going_on i [] left processing

module _ {ℓ} {A : Type ℓ} (blank : A) where
  abbrev pub messages : List (Handling × A) → List A
  messages l = map (λ h. h.1) l

  -- The messages that waited, and those that came, were handled in this order, or wait still.
  pub record IsServed (i : ℕ) (s : Scheduled A) (rounds : List (Round A)) (v : Service A)
      : Type ℓ where
    pub order : waiting blank s ++ v.accepted ≡ messages v.handled ++ waiting blank v.scheduled
    pub dispatched :
        map (λ h. h.0) v.handled ≡ map (λ r. handler_of r.valid) (take (length v.handled) rounds)
    pub went_on : WentOn i (take (length v.handled) rounds)
    pub ends :
        EndsWith v.ending
          (i + length v.handled)
          (drop (length v.handled) rounds)
          (waiting blank v.scheduled)
          v.scheduled.context.processing
