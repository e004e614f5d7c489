-- ===== src/ContextQueue/Pops.antt =====
-- Taking from a run queue: one context, half of them, all of them.
use native.Mathlib.Decide.{ℕ_discrete}
use node_lua.Common.{
  Apart, eq→==, ne→==, ℕ, zero, suc, ◌-◌, ◌/◌, ◌%◌, ◌^◌, ◌≤◌, ◌<◌, ◌≡◌, ◌≢◌, refl, sym, subst, ◌∙◌,
  List, [], ◌∷◌, Option, none, some, length, length-drop, take, drop, arith,
}
use node_lua.Common.Words.{sub64}
use node_lua.ContextQueue.{
  Next, link, ContextQueue, Stolen, behind, take_head, try_pop_one, walk, cut_after, half_of,
  try_pop_half, pop_all,
}
use node_lua.ContextQueue.Chain.{
  first_of_list, last_of_list, Distinct, Linked, Ends, Holds, Linked-link, Linked-link_last,
  last_some, unsome,
}

-- The first context is taken off, and is linked to nothing from then on.
abbrev pub Popped : List ℕ → Option ℕ × Next × ContextQueue → Type 0
Popped xs (c, next', q') =
    (c ≡ first_of_list xs) × Holds next' q' (drop 1 xs) × ((x : ℕ) → c ≡ some x → next' x ≡ none)

-- `first_of_list` behind the first.
step :
    (next : Next) (x : ℕ) (xs : List ℕ)
    → Linked next (x ∷ xs)
    → Ends next (x ∷ xs)
    → next x ≡ first_of_list xs
step next x [] l e = e x refl
step next x (y ∷ ys) l e = l.0

tail_Linked : (next : Next) (x : ℕ) (xs : List ℕ) → Linked next (x ∷ xs) → Linked next xs
tail_Linked next x [] l = tt
tail_Linked next x (y ∷ ys) l = l.1

tail_Ends : (next : Next) (x : ℕ) (xs : List ℕ) → Ends next (x ∷ xs) → Ends next xs
tail_Ends next x [] e t at = absurd (cc)
tail_Ends next x (y ∷ ys) e t at = e t at

behind-Holds :
    (next : Next) (q : ContextQueue) (x : ℕ) (xs : List ℕ)
    → Holds next q (x ∷ xs)
    → suc (length xs) < 2 ^ 64
    → Holds (link next x none) (behind q (first_of_list xs)) xs
unfolding behind
behind-Holds next q x [] v small = record {
  at_head = refl;
  at_tail = refl;
  counted = refl;
  linked = tt;
  ended = λ t e. absurd (cc);
  distinct = tt;
}
behind-Holds next q x (y ∷ ys) v small = record {
  at_head = refl;
  at_tail = v.at_tail;
  counted = omega (arith, v.counted);
  linked = Linked-link next x none (y ∷ ys) v.distinct.0 v.linked.1;
  ended = λ t e. ground (arith, v.ended t e);
  distinct = v.distinct.1;
}

take_head-Popped :
    (next : Next) (q : ContextQueue) (xs : List ℕ)
    → Holds next q xs
    → length xs < 2 ^ 64
    → Popped xs (take_head next q (first_of_list xs))
unfolding take_head
take_head-Popped next q [] v small = (refl, v, λ x e. absurd (cc))
take_head-Popped next q (x ∷ xs) v small = (
  refl,
  rw (step next x xs v.linked v.ended) (behind-Holds next q x xs v small),
  λ y e. ground arith,
)

-- `try_pop_one` takes the oldest context off and unlinks it, or answers NULL when there is none;
-- the queue holds the others in their order. It holds fewer than 2^64 contexts.
pub try_pop_one-Popped :
    (next : Next) (q : ContextQueue) (xs : List ℕ)
    → Holds next q xs
    → length xs < 2 ^ 64
    → Popped xs (try_pop_one next q)
unfolding try_pop_one
try_pop_one-Popped next q xs v small =
    subst (λ o. Popped xs (take_head next q o)) (sym v.at_head) (take_head-Popped next q xs v small)

-- What is stolen from `xs`: the first half of it, a list that ends, and the queue keeps the rest.
abbrev pub Halved : List ℕ → Stolen × Next × ContextQueue → Type 0
Halved xs (s, next', q') =
    let half = length xs / 2 in
    (s.half ≡ half)
    × (s.first ≡ first_of_list (take half xs))
    × (s.last ≡ last_of_list (take half xs))
    × Linked next' (take half xs)
    × Ends next' (take half xs)
    × Holds next' q' (drop half xs)

Linked-take : (next : Next) (n : ℕ) (xs : List ℕ) → Linked next xs → Linked next (take n xs)
Linked-take next zero xs l = tt
Linked-take next (suc n) [] l = tt
Linked-take next (suc zero) (x ∷ xs) l = tt
Linked-take next (suc (suc n)) (x ∷ []) l = tt
Linked-take next (suc (suc n)) (x ∷ y ∷ ys) l = (l.0, Linked-take next (suc n) (y ∷ ys) l.1)

Apart-take : (c n : ℕ) (xs : List ℕ) → Apart c xs → Apart c (take n xs)
Apart-take c zero xs a = tt
Apart-take c (suc n) [] a = tt
Apart-take c (suc n) (x ∷ xs) a = (a.0, Apart-take c n xs a.1)

Distinct-take : (n : ℕ) (xs : List ℕ) → Distinct xs → Distinct (take n xs)
Distinct-take zero xs d = tt
Distinct-take (suc n) [] d = tt
Distinct-take (suc n) (x ∷ xs) d = (Apart-take x n xs d.0, Distinct-take n xs d.1)

Linked-drop : (next : Next) (n : ℕ) (xs : List ℕ) → Linked next xs → Linked next (drop n xs)
Linked-drop next zero xs l = l
Linked-drop next (suc n) [] l = tt
Linked-drop next (suc n) (x ∷ xs) l = Linked-drop next n xs (tail_Linked next x xs l)

Distinct-drop : (n : ℕ) (xs : List ℕ) → Distinct xs → Distinct (drop n xs)
Distinct-drop zero xs d = d
Distinct-drop (suc n) [] d = tt
Distinct-drop (suc n) (x ∷ xs) d = Distinct-drop n xs d.1

-- A walk of `n` steps from the head is at the last of the first `suc n`.
walk_lem :
    (next : Next) (n : ℕ) (xs : List ℕ)
    → Linked next xs
    → n < length xs
    → walk next n (first_of_list xs) ≡ last_of_list (take (suc n) xs)
unfolding walk
walk_lem next zero (x ∷ xs) l lt = refl
walk_lem next zero [] l lt = refl
walk_lem next (suc n) [] l lt = refl
walk_lem next (suc n) (x ∷ []) l lt = absurd (omega (arith, lt))
walk_lem next (suc n) (x ∷ y ∷ ys) l lt =
    rw (l.0) (walk_lem next n (y ∷ ys) l.1 (omega (arith, lt)))

-- At a cut behind `n` contexts, the last of them and what follows.
last-take-next :
    (next : Next) (n t : ℕ) (xs : List ℕ)
    → Linked next xs
    → Ends next xs
    → last_of_list (take n xs) ≡ some t
    → next t ≡ first_of_list (drop n xs)
last-take-next next zero t xs l e at = absurd (cc)
last-take-next next (suc n) t [] l e at = absurd (cc)
last-take-next next (suc zero) t (x ∷ xs) l e at =
    subst (λ k. next k ≡ first_of_list xs) (unsome at) (step next x xs l e)
last-take-next next (suc (suc n)) t (x ∷ []) l e at = e t at
last-take-next next (suc (suc n)) t (x ∷ y ∷ ys) l e at =
    last-take-next next (suc n) t (y ∷ ys) l.1 e at

last-take-Apart :
    (n t : ℕ) (xs : List ℕ) → Distinct xs → last_of_list (take n xs) ≡ some t → Apart t (drop n xs)
last-take-Apart zero t xs d at = absurd (cc)
last-take-Apart (suc n) t [] d at = absurd (cc)
last-take-Apart (suc zero) t (x ∷ xs) d at = subst (λ k. Apart k xs) (unsome at) d.0
last-take-Apart (suc (suc n)) t (x ∷ []) d at = tt
last-take-Apart (suc (suc n)) t (x ∷ y ∷ ys) d at = last-take-Apart (suc n) t (y ∷ ys) d.1 at

last-drop : (n : ℕ) (xs : List ℕ) → n < length xs → last_of_list (drop n xs) ≡ last_of_list xs
last-drop zero xs lt = refl
last-drop (suc n) [] lt = refl
last-drop (suc n) (x ∷ []) lt = absurd (omega (arith, lt))
last-drop (suc n) (x ∷ y ∷ ys) lt = last-drop n (y ∷ ys) (omega (arith, lt))

last-take_some : (n : ℕ) (xs : List ℕ) → n ≢ 0 → n ≤ length xs → last_of_list (take n xs) ≢ none
last-take_some zero xs nz le e = nz refl
last-take_some (suc n) [] nz le e = omega (arith, le)
last-take_some (suc n) (x ∷ xs) nz le e = let (t, e') = last_some x (take n xs) in cc (e, e')

first-take : (n : ℕ) (xs : List ℕ) → n ≢ 0 → first_of_list (take n xs) ≡ first_of_list xs
first-take zero xs nz = absurd (nz refl)
first-take (suc n) [] nz = refl
first-take (suc n) (x ∷ xs) nz = refl

no_first : (xs : List ℕ) → first_of_list xs ≡ none → length xs ≡ 0
no_first [] e = refl
no_first (x ∷ xs) e = absurd (cc)

module _ (next : Next) (q : ContextQueue) (xs : List ℕ) (v : Holds next q xs)
    (small : length xs < 2 ^ 32) where
  -- The queue behind the cut.
  cut_Holds :
      (n t : ℕ)
      → n < length xs
      → last_of_list (take n xs) ≡ some t
      → Holds
          (link next t none)
          (record q { head = next t; queue_count = sub64 q.queue_count n })
          (drop n xs)
  cut_Holds n t lt at = record {
    at_head = last-take-next next n t xs v.linked v.ended at;
    at_tail = v.at_tail ∙ sym (last-drop n xs lt);
    counted = omega (arith, v.counted, length-drop n xs, small, lt);
    linked =
        Linked-link next t none (drop n xs) (last-take-Apart n t xs v.distinct at)
          (Linked-drop next n xs v.linked);
    ended = λ t' e. ground (arith, v.ended t' (sym (last-drop n xs lt) ∙ e));
    distinct = Distinct-drop n xs v.distinct;
  }

  cut_Halved :
      (o : Option ℕ)
      → length xs / 2 ≢ 0
      → o ≡ last_of_list (take (length xs / 2) xs)
      → Halved xs (cut_after next q (length xs / 2) o)
  unfolding cut_after
  cut_Halved none some_half at =
      absurd (last-take_some (length xs / 2) xs some_half (omega arith) (sym at))
  cut_Halved (some t) some_half at = (
    refl,
    v.at_head ∙ sym (first-take _ xs some_half),
    at,
    Linked-link_last next t none _ (Distinct-take _ xs v.distinct) (sym at)
        (Linked-take next _ xs v.linked),
    (λ t' e. ground (arith, unsome (at ∙ e))),
    cut_Holds _ t (omega (arith, some_half)) (sym at),
  )

  none-Halved :
      length xs / 2 ≡ 0 → Halved xs (record { half = 0; first = none; last = none }, next, q)
  none-Halved e = rw (e) (refl, refl, refl, tt, (λ t e'. absurd (cc)), v)

  some-Halved :
      (h n : ℕ)
      → first_of_list xs ≡ some h
      → n ≡ length xs / 2
      → n ≢ 0
      → Halved xs (cut_after next q n (walk next (n - 1) (some h)))
  some-Halved h zero at e nz = absurd (nz refl)
  some-Halved h (suc m) at e nz =
      subst (λ k. Halved xs (cut_after next q (suc m) (walk next k (some h)))) (omega arith)
        (subst (λ n. Halved xs (cut_after next q n (walk next m (some h)))) (sym e)
          (cut_Halved (walk next m (some h)) (λ z. nz (e ∙ z))
            (rw (← at, ← e) (walk_lem next m xs v.linked (omega (arith, e))))))

  half_of-Halved : (h : ℕ) → first_of_list xs ≡ some h → Halved xs (half_of next q (some h))
  unfolding half_of
  half_of-Halved h at = elim (ℕ_discrete half 0) [
    | yes z ↦ rw (eq→== half 0 z) (none-Halved (sym same ∙ z))
    | no nz ↦ rw (ne→== half 0 nz) (some-Halved h half at same nz)
  ]
    where
      half : ℕ
      half = q.queue_count / 2 % 2 ^ 32

      same : half ≡ length xs / 2
      same = omega (arith, small, v.counted)

  head-Halved : (o : Option ℕ) → o ≡ first_of_list xs → Halved xs (half_of next q o)
  unfolding half_of
  head-Halved (some h) at = half_of-Halved h (sym at)
  head-Halved none at = none-Halved (rw (no_first xs (sym at)) (omega arith))

-- `try_pop_half` takes off the older half of the contexts, rounded down, as one linked list that
-- ends, and the queue holds the others in their order. It holds fewer than 2^32 contexts.
pub try_pop_half-Halved :
    (next : Next) (q : ContextQueue) (xs : List ℕ)
    → Holds next q xs
    → length xs < 2 ^ 32
    → Halved xs (try_pop_half next q)
unfolding try_pop_half
try_pop_half-Halved next q xs v small = head-Halved next q xs v small q.head v.at_head

-- `pop_all` answers the oldest context and leaves an empty queue.
pub pop_all_lem :
    (next : Next) (q : ContextQueue) (xs : List ℕ)
    → Holds next q xs
    → ((pop_all q).0 ≡ first_of_list xs) × Holds next (pop_all q).1 []
unfolding pop_all
pop_all_lem next q xs v = (
  v.at_head,
  record {
    at_head = refl;
    at_tail = refl;
    counted = refl;
    linked = tt;
    ended = λ t e. absurd (cc);
    distinct = tt;
  },
)
