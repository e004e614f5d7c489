-- ===== src/MessageQueue/Slots.antt =====
-- The messages of a ring, oldest first: `n` slots from index `h` on, taken round at `cap`.
use native.Mathlib.Nat.{mod-add-mod, mod-eq_of_lt, mod-eq-sub-mod, mod-lt}
use native.Mathlib.Decide.{dec_lt}
use node_lua.Common.{
  ℕ, zero, suc, ◌+◌, ◌-◌, ◌%◌, ◌<◌, ◌≡◌, refl, ap, ap₂, ◌∙◌, ◌≢◌, List, [], ◌∷◌, get_or, length,
  arith,
}

-- Fewer than `cap` steps round the ring do not come back to the start.
step_round : (cap h k : ℕ) → h < cap → 0 < k → k < cap → (h + k) % cap ≢ h
step_round cap h k hh pos hk = elim (dec_lt (h + k) cap) [
  | yes p ↦ omega (arith, mod-eq_of_lt p)
  | no p ↦ omega (
    arith,
    mod-eq-sub-mod {n = h + k} {m = cap} (omega arith),
    mod-eq_of_lt {n = h + k - cap} {m = cap} (omega arith),
  )
]

-- Distinct offsets below `cap` are distinct slots.
pub offset_ne : (cap h i n : ℕ) → i < n → n < cap → (h + n) % cap ≢ (h + i) % cap
offset_ne cap h i n lt small e =
    step_round cap ((h + i) % cap) (n - i) (mod-lt (h + i) {m = cap} (omega arith)) (omega arith)
      (omega arith) (mod-add-mod (h + i) cap (n - i) ∙ ap (λ k. k % cap) shift ∙ e)
  where
    shift : h + i + (n - i) ≡ h + n
    shift = omega arith

module _ {ℓ} {A : Type ℓ} (blank : A) where
  abbrev pub slots : List A → ℕ → ℕ → ℕ → List A
  slots buf cap h zero = []
  slots buf cap h (suc n) = get_or buf (h % cap) blank ∷ slots buf cap (h + 1) n

  pub length-slots : (buf : List A) (cap h n : ℕ) → length (slots buf cap h n) ≡ n
  length-slots buf cap h zero = refl
  length-slots buf cap h (suc n) = ap suc (length-slots buf cap (h + 1) n)

  -- Two rings hold the same messages if they agree slot by slot.
  pub slots_ext :
      (buf buf' : List A) (cap cap' h h' n : ℕ)
      → ((i : ℕ) → i < n → get_or buf ((h + i) % cap) blank ≡ get_or buf' ((h' + i) % cap') blank)
      → slots buf cap h n ≡ slots buf' cap' h' n
  slots_ext buf buf' cap cap' h h' zero same = refl
  slots_ext buf buf' cap cap' h h' (suc n) same =
      ap₂ ◌∷◌ (rw (first h, first h') at (same 0 (omega arith))) (
        slots_ext buf buf' cap cap' (h + 1) (h' + 1) n
          (λ i lt. rw (next h i, next h' i) at (same (suc i) (omega arith))))
    where
      first : (k : ℕ) → k + 0 ≡ k
      first k = omega arith

      next : (k i : ℕ) → k + suc i ≡ k + 1 + i
      next k i = omega arith

  -- Only the remainder of the start matters.
  pub slots-mod : (buf : List A) (cap h n : ℕ) → slots buf cap (h % cap) n ≡ slots buf cap h n
  slots-mod buf cap h n =
      slots_ext buf buf cap cap (h % cap) h n
        (λ i _. ap (λ k. get_or buf k blank) (mod-add-mod h cap i))
