-- ===== src/RefSessions/Wakeup.antt =====
-- Which coroutines a wakeup resumes, and what it leaves waiting.
use node_lua.Common.{
  Apart, ℕ, suc, ◌+◌, ◌<◌, ◌≤◌, ◌^◌, ◌≡◌, ◌≢◌, refl, ap, sym, ◌∙◌, List, [], ◌∷◌, ◌++◌, append-nil,
  append_assoc, Option, none, some, Bool, false, ◌==◌, if◌then◌else◌, length, arith, ne→==,
}
use node_lua.Common.Words.{add32}
use node_lua.RefSessions.{RefSessions, erase, wake_rounds, wakeup_all_blocking, wakeup_one_fixed}

-- A coroutine that is resumed goes into `log`; it may wait again, and what waits again goes behind
-- the others and into `joined`, but it wakes and takes off no other one.
pub record Resumes {W : Type 0} (log joined : W → List ℕ) (session : ℕ) (s : RefSessions) (w : W)
    (after : ℕ × RefSessions × W) : Type 0 where
  pub more : List ℕ
  pub queued : after.1.blocking_sessions ≡ s.blocking_sessions ++ more
  pub noted : log after.2 ≡ log w ++ (session ∷ [])
  pub joins : joined after.2 ≡ joined w ++ more

-- Every coroutine of `xs` was resumed in order, and what waits now is `rest` and who joined since.
pub record Woken {W : Type 0} (log joined : W → List ℕ) (xs rest : List ℕ) (size : ℕ) (w : W)
    (result : Option (ℕ × RefSessions × W)) : Type 0 where
  pub woken : ℕ
  pub after : RefSessions
  pub world : W
  pub is : result ≡ some (woken, after, world)
  pub at_most : woken ≤ size + length xs
  pub in_order : log world ≡ log w ++ xs
  pub more : List ℕ
  pub waiting : after.blocking_sessions ≡ rest ++ more
  pub joins : joined world ≡ joined w ++ more

module _ {W : Type 0} (wake : ℕ → Bool → RefSessions → W → ℕ × RefSessions × W)
    (log joined : W → List ℕ)
    (resumes : (session : ℕ) (free_callback : Bool) (s : RefSessions) (w : W)
      → Resumes log joined session s w (wake session free_callback s w)) where
  -- One resumption, and then those of `xs`.
  one_more :
      (x : ℕ) (xs rest : List ℕ) (size size' : ℕ) (s : RefSessions) (w : W)
      (first : ℕ × RefSessions × W) (result : Option (ℕ × RefSessions × W))
      → size' ≤ suc size
      → (r : Resumes log joined x s w first)
      → Woken log joined xs (rest ++ r.more) size' first.2 result
      → Woken log joined (x ∷ xs) rest size w result
  one_more x xs rest size size' s w first result le r i = record {
    woken = i.woken;
    after = i.after;
    world = i.world;
    is = i.is;
    at_most = omega (arith, i.at_most);
    in_order = i.in_order ∙ ap (λ l. l ++ xs) r.noted ∙ append_assoc (log w) (x ∷ []) xs;
    more = r.more ++ i.more;
    waiting = i.waiting ∙ append_assoc rest r.more i.more;
    joins = i.joins ∙ ap (λ l. l ++ i.more) r.joins ∙ append_assoc (joined w) r.more i.more;
  }

  wake_rounds-Woken :
      (xs rest : List ℕ) (size : ℕ) (s : RefSessions) (w : W)
      → s.blocking_sessions ≡ xs ++ rest
      → size + length xs < 2 ^ 32
      → Woken log joined xs rest size w (wake_rounds wake (length xs) size s w)
  unfolding wake_rounds
  wake_rounds-Woken [] rest size s w e small = record {
    woken = size;
    after = s;
    world = w;
    is = refl;
    at_most = omega arith;
    in_order = sym (append-nil (log w));
    more = [];
    waiting = e ∙ sym (append-nil rest);
    joins = sym (append-nil (joined w));
  }
  wake_rounds-Woken (x ∷ xs) rest size s w e small =
      let left : RefSessions = record s { blocking_sessions = xs ++ rest } in
      let first : ℕ × RefSessions × W = wake x false left w in
      let r : Resumes log joined x left w first = resumes x false left w in
      let size' : ℕ = (if first.0 == 0 then size else add32 size 1) in
      rw (e) (
        one_more x xs rest size size' left w first _ (ground arith) r (
          wake_rounds-Woken xs (rest ++ r.more) size' first.1 first.2
            (r.queued ∙ append_assoc xs rest r.more) (ground (arith, small))))

  -- If fewer than 2^31 coroutines wait and those that are resumed only wait again,
  -- `wakeup_all_blocking` never reads an empty vector: it resumes exactly the coroutines that were
  -- waiting when it began, oldest first, and leaves exactly those that joined meanwhile.
  pub wakeup_all_blocking-Woken :
      (s : RefSessions) (w : W)
      → length s.blocking_sessions < 2 ^ 31
      → Woken log joined s.blocking_sessions [] 0 w (wakeup_all_blocking wake s w)
  unfolding wakeup_all_blocking
  wakeup_all_blocking-Woken s w small =
      wake_rounds-Woken s.blocking_sessions [] 0 s w (sym (append-nil s.blocking_sessions))
        (omega (arith, small))

erase_found :
    (session : ℕ) (front back : List ℕ)
    → Apart session front
    → erase session (front ++ (session ∷ back)) ≡ some (front ++ back)
unfolding erase
erase_found session [] back a = ground arith
erase_found session (x ∷ xs) back a =
    rw (ne→== session x (λ e. a.0 (sym e)), erase_found session xs back a.1) refl

erase_absent : (session : ℕ) (xs : List ℕ) → Apart session xs → erase session xs ≡ none
unfolding erase
erase_absent session [] a = refl
erase_absent session (x ∷ xs) a =
    rw (ne→== session x (λ e. a.0 (sym e)), erase_absent session xs a.1) refl

-- `wakeup_one_fixed` for a session that is not the callback's takes off the first coroutine with
-- that session, whatever is before and behind it, and resumes it; if none waits with that session,
-- it answers 0 and changes nothing.
pub wakeup_one_fixed_lem :
    {W : Type 0} (wake : ℕ → Bool → RefSessions → W → ℕ × RefSessions × W) (session : ℕ)
    (free_callback : Bool) (s : RefSessions) (w : W)
    → session ≢ s.nonblocking_ref
    → ((front back : List ℕ)
        → s.blocking_sessions ≡ front ++ (session ∷ back)
        → Apart session front
        → wakeup_one_fixed wake session free_callback s w
          ≡ wake session false (record s { blocking_sessions = front ++ back }) w)
      × (Apart session s.blocking_sessions
          → wakeup_one_fixed wake session free_callback s w ≡ (0, s, w))
unfolding wakeup_one_fixed
wakeup_one_fixed_lem wake session free_callback s w ne = (
  (λ front back e a.
      rw (ne→== session s.nonblocking_ref ne, e, erase_found session front back a) refl),
  (λ a. rw (ne→== session s.nonblocking_ref ne, erase_absent session s.blocking_sessions a) refl),
)
