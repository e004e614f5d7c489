-- ===== src/Context/Schedule/Serve.antt =====
-- The loop of `worker_process` (src/worker_mgr.cpp) over the messages of one context, while senders,
-- and the handlers themselves, push more. What else the handlers do, and message_clean after them,
-- is left aside.
use node_lua.Common.{
  ℕ, ◌+◌, List, [], ◌∷◌, ◌++◌, none, some, Bool, true, false, not, ◌||◌, ltb, if◌then◌else◌,
}
use node_lua.Context.Schedule.{Scheduled, send, process, give_back}
use node_lua.WorkerMgr.{not_positive}

-- MAX_MESSAGE_PROC_NUM
abbrev pub max_message_proc_num : ℕ
max_message_proc_num = 8

-- What a round of the loop meets: the messages that are pushed to the context since the last pop, by
-- anyone, the length of the worker's run queue and `is_valid()` at the guard, and `is_valid()` after
-- the pop.
pub record Round {ℓ} (A : Type ℓ) : Type ℓ where
  pub arrivals : List A
  pub queue_length : ℕ
  pub valid_before : Bool
  pub valid : Bool

-- on_received or on_dropped.
pub data Handling : Type 0 where
  on_received on_dropped : Handling

-- How the loop ends: no message was left, the guard failed and the context goes back into a run
-- queue, or it goes on.
pub data Ending : Type 0 where
  emptied given_back going_on : Ending

pub record Service {ℓ} (A : Type ℓ) : Type ℓ where
  pub handled : List (Handling × A)
  pub accepted : List A
  pub ending : Ending
  pub scheduled : Scheduled A

-- The guard of the loop.
abbrev pub guard {ℓ} : {A : Type ℓ} → ℕ → Round A → Bool
guard i r = ltb i max_message_proc_num || (not_positive r.queue_length || not r.valid_before)

abbrev pub handler_of : Bool → Handling
handler_of valid = if valid then on_received else on_dropped

module _ {ℓ} {A : Type ℓ} (blank : A) where
  -- The messages that get into the mailbox.
  unfoldable pub send_all : List A → Scheduled A → List A × Scheduled A
  send_all [] s = ([], s)
  send_all (m ∷ ms) s =
      let (ok, s') = send blank s m in
      let (accepted, s'') = send_all ms s' in (if ok then m ∷ accepted else accepted, s'')

  -- The loop from round `i`, as long as the rounds go.
  unfoldable pub serve : ℕ → Scheduled A → List (Round A) → Service A
  unfolding send_all
  serve i s [] = record { handled = []; accepted = []; ending = going_on; scheduled = s }
  serve i s (r ∷ rounds) =
      let (accepted, s') = send_all r.arrivals s in
      elim (guard i r) [
        | false ↦ record {
          handled = [];
          accepted = accepted;
          ending = given_back;
          scheduled = give_back s';
        }
        | true ↦ elim (process blank s').0 [
          | none ↦ record {
            handled = [];
            accepted = accepted;
            ending = emptied;
            scheduled = (process blank s').1;
          }
          | some m ↦
              let rest = serve (i + 1) (process blank s').1 rounds in
              record rest {
                handled = (handler_of r.valid, m) ∷ rest.handled;
                accepted = accepted ++ rest.accepted;
              }
        ]
      ]
