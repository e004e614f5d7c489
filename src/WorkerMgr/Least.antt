-- ===== src/WorkerMgr/Least.antt =====
-- The worker that `repush_context` chooses has the shortest queue.
use native.Mathlib.Decide.{ℕ_discrete, dec_lt}
use node_lua.Common.{
  ℕ, suc, ◌+◌, ◌-◌, ◌<◌, ◌≤◌, ◌^◌, ◌≡◌, refl, ap, sym, subst, ◌∙◌, List, [], ◌∷◌, ◌⊎◌, inl, inr,
  false, lt→ltb, le→ltb, eq→==, ne→==, if◌then◌else◌, length, get_or, arith,
}
use node_lua.WorkerMgr.{least_loaded, repush_context, not_positive}

-- No queue is shorter than `n`.
abbrev pub AllAtLeast : ℕ → List ℕ → Type 0
AllAtLeast n [] = Unit {0}
AllAtLeast n (x ∷ xs) = (n ≤ x) × AllAtLeast n xs

zero_least : (xs : List ℕ) → AllAtLeast 0 xs
zero_least [] = tt
zero_least (x ∷ xs) = (omega arith, zero_least xs)

-- Either the earlier choice stands, or a worker of the rest is chosen; what is chosen has a queue
-- that is not longer than that of the earlier choice and those of the rest.
record Chosen (min_index min_length i : ℕ) (xs : List ℕ) (t : ℕ) : Type 0 where
  pub load : ℕ
  pub whose :
      ((t ≡ min_index) × (load ≡ min_length))
      ⊎ ((i ≤ t) × (t - i < length xs) × (get_or xs (t - i) 0 ≡ load))
  pub below : load ≤ min_length
  pub least : AllAtLeast load xs

at_suc : (x : ℕ) (xs : List ℕ) (j k l : ℕ) → k ≡ suc j → get_or xs j 0 ≡ l → get_or (x ∷ xs) k 0 ≡ l
at_suc x xs j k l e g = rw (e) g

at_zero : (x : ℕ) (xs : List ℕ) (k : ℕ) → k ≡ 0 → get_or (x ∷ xs) k 0 ≡ x
at_zero x xs k e = rw (e) refl

-- A choice in the rest, one worker on.
later :
    (x : ℕ) {i t load : ℕ} (xs : List ℕ)
    → (i + 1 ≤ t) × (t - (i + 1) < length xs) × (get_or xs (t - (i + 1)) 0 ≡ load)
    → (i ≤ t) × (t - i < length (x ∷ xs)) × (get_or (x ∷ xs) (t - i) 0 ≡ load)
later x {i} {t} {load} xs (le, lt, at) = (
  omega (arith, le),
  omega (arith, lt, le),
  at_suc x xs (t - (i + 1)) (t - i) load (omega (arith, le)) at,
)

here_first :
    (x : ℕ) {i t load : ℕ} (xs : List ℕ)
    → t ≡ i
    → load ≡ x
    → (i ≤ t) × (t - i < length (x ∷ xs)) × (get_or (x ∷ xs) (t - i) 0 ≡ load)
here_first x {i} {t} {load} xs e l =
    (omega (arith, e), omega (arith, e), at_zero x xs (t - i) (omega (arith, e)) ∙ sym l)

closer_first :
    (m n i x : ℕ) (xs : List ℕ) {t : ℕ} → x < n → Chosen i x (i + 1) xs t → Chosen m n i (x ∷ xs) t
closer_first m n i x xs lt c = record {
  load = c.load;
  whose = elim c.whose [
    | inl (e, l) ↦ inr (here_first x xs e l)
    | inr further ↦ inr (later x xs further)
  ];
  below = omega (arith, c.below, lt);
  least = (c.below, c.least);
}

same_first :
    (m n i x : ℕ) (xs : List ℕ) {t : ℕ} → n ≤ x → Chosen m n (i + 1) xs t → Chosen m n i (x ∷ xs) t
same_first m n i x xs le c = record {
  load = c.load;
  whose = elim c.whose [ inl old ↦ inl old | inr further ↦ inr (later x xs further) ];
  below = c.below;
  least = (omega (arith, c.below, le), c.least);
}

least_loaded-Chosen :
    (min_index min_length i : ℕ) (xs : List ℕ)
    → Chosen min_index min_length i xs (least_loaded min_index min_length i xs)
unfolding least_loaded
least_loaded-Chosen m n i [] = record {
  load = n;
  whose = inl (refl, refl);
  below = omega arith;
  least = tt;
}
least_loaded-Chosen m n i (x ∷ xs) = elim (ℕ_discrete x 0) [
  | yes z ↦ rw (eq→== x 0 z) (record {
    load = 0;
    whose = inr (here_first x xs refl (sym z));
    below = omega arith;
    least = (omega arith, zero_least xs);
  })
  | no nz ↦ elim (dec_lt x n) [
    | yes lt ↦
        rw (ne→== x 0 nz, lt→ltb x n lt)
          (closer_first m n i x xs lt (least_loaded-Chosen i x (i + 1) xs))
    | no ge ↦
        rw (ne→== x 0 nz, le→ltb n x (omega arith))
          (same_first m n i x xs (omega arith) (least_loaded-Chosen m n (i + 1) xs))
  ]
]

AllAtLeast-trans : (a b : ℕ) (xs : List ℕ) → a ≤ b → AllAtLeast b xs → AllAtLeast a xs
AllAtLeast-trans a b [] le v = tt
AllAtLeast-trans a b (x ∷ xs) le v = (omega (arith, v.0), AllAtLeast-trans a b xs le v.1)

-- The choice of a loop that starts with worker 0 and the largest length.
Chosen-AllAtLeast :
    (x : ℕ) (xs : List ℕ) (t : ℕ)
    → x < 2 ^ 32
    → Chosen 0 (2 ^ 32 - 1) 0 (x ∷ xs) t
    → (t < length (x ∷ xs)) × AllAtLeast (get_or (x ∷ xs) t 0) (x ∷ xs)
Chosen-AllAtLeast x xs t small c = elim c.whose [
  | inl (e, l) ↦ (
    omega (arith, e),
    AllAtLeast-trans (get_or (x ∷ xs) t 0) c.load (x ∷ xs)
        (omega (arith, at_zero x xs t e, l, small)) c.least,
  )
  | inr (_, lt, at) ↦ (
    omega (arith, lt),
    subst (λ k. AllAtLeast k (x ∷ xs)) (sym at ∙ ap (λ k. get_or (x ∷ xs) k 0) (omega arith))
        c.least,
  )
]

-- A running worker whose queue is not empty hands its context to a worker with the shortest queue,
-- by the lengths read in the loop, each of them an `int32_t`.
pub repush_context-AllAtLeast :
    (running own x : ℕ) (xs : List ℕ)
    → not_positive own ≡ false
    → x < 2 ^ 32
    → let t = repush_context running own (x ∷ xs) in
      (t < length (x ∷ xs)) × AllAtLeast (get_or (x ∷ xs) t 0) (x ∷ xs)
unfolding repush_context
repush_context-AllAtLeast running own x xs busy small =
    subst
      (λ b.
        let t = (if b then running else least_loaded 0 (2 ^ 32 - 1) 0 (x ∷ xs)) in
        (t < length (x ∷ xs)) × AllAtLeast (get_or (x ∷ xs) t 0) (x ∷ xs))
      (sym busy)
      (Chosen-AllAtLeast x xs (least_loaded 0 (2 ^ 32 - 1) 0 (x ∷ xs)) small
        (least_loaded-Chosen 0 (2 ^ 32 - 1) 0 (x ∷ xs)))
