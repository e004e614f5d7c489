-- ===== src/ContextMgr/Probe.antt =====
-- The inner loop of `register_context`.
use native.Mathlib.Decide.{ℕ_discrete}
use native.Mathlib.Nat.{
  mod-lt, mod-eq_of_lt, add-mod_right, mod-add-mod, add-mod-mod, pow-suc, mul_assoc, mul_comm,
  div-add-mod, add-mul-mod_self_left,
}
use node_lua.Common.{
  ℕ, zero, suc, ◌+◌, ◌-◌, ◌<◌, ◌≤◌, ◌^◌, ◌%◌, ◌/◌, ◌*◌, ◌≡◌, ◌≢◌, refl, sym, ap, subst, ◌∙◌, Option,
  none, some, Option-cases, arith, eq→==, ne→==, inl, inr,
}
use node_lua.Common.Bits.{pow_pos}
use node_lua.Common.Words.{add32}
use node_lua.ContextMgr.{next_handle, probe}
use node_lua.ContextMgr.Table.{hash_of-mod, below}

pow_eq : (a b : ℕ) → a ≡ b → 2 ^ a ≡ 2 ^ b
pow_eq a b same = ap (λ m. 2 ^ m) same

pub pow_split : (d n : ℕ) → 2 ^ (d + n) ≡ 2 ^ d * 2 ^ n
pow_split zero n = pow_eq (0 + n) n (omega arith) ∙ omega arith
pow_split (suc d) n =
    pow_eq (suc d + n) (suc (d + n)) (omega arith)
    ∙ pow-suc 2 (d + n)
    ∙ ap (λ m. m * 2) (pow_split d n)
    ∙ mul_assoc (2 ^ d) (2 ^ n) 2
    ∙ ap (λ m. 2 ^ d * m) (mul_comm (2 ^ n) 2)
    ∙ sym (mul_assoc (2 ^ d) 2 (2 ^ n))
    ∙ ap (λ m. m * 2 ^ n) (sym (pow-suc 2 d))

module _ (bits cap : ℕ) (few : bits ≤ 31) (e : cap ≡ 2 ^ bits) where
  -- What wraps modulo 2^32 keeps its slot.
  wraps : (a : ℕ) → a % 2 ^ 32 % cap ≡ a % cap
  wraps a =
      sym (add-mul-mod_self_left (a % 2 ^ 32) cap (2 ^ (32 - bits) * (a / 2 ^ 32)))
      ∙ ap (λ n. n % cap) (ap (λ n. a % 2 ^ 32 + n) whole ∙ omega arith)
    where
      whole : cap * (2 ^ (32 - bits) * (a / 2 ^ 32)) ≡ 2 ^ 32 * (a / 2 ^ 32)
      whole =
          sym (mul_assoc cap (2 ^ (32 - bits)) (a / 2 ^ 32))
          ∙ ap (λ n. n * (a / 2 ^ 32))
              (ap (λ n. n * 2 ^ (32 - bits)) e
                ∙ sym (pow_split bits (32 - bits))
                ∙ pow_eq (bits + (32 - bits)) 32 (omega (arith, few)))

  same_slot : (a b : ℕ) → a ≡ b → a % cap ≡ b % cap
  same_slot a b same = ap (λ x. x % cap) same

  -- The handle of a round is one that can be used, in the slot that comes next.
  record IsNext (i index index' handle : ℕ) : Type 0 where
    nonzero : handle ≢ 0
    word : handle < 2 ^ 32
    slot : handle % cap ≡ (i + index) % cap
    onward : (t : ℕ) → (t + index') % cap ≡ (t + index) % cap

  small : cap < 2 ^ 32
  small = omega (arith, e, below bits few)

  positive : 0 < cap
  positive = omega (arith, e, pow_pos bits)

  -- The index moved on by the whole table.
  moved : (t index : ℕ) → (t + add32 index cap) % cap ≡ (t + index) % cap
  moved t index =
      sym (add-mod-mod t (add32 index cap) cap)
      ∙ ap (λ n. (t + n) % cap) (wraps (index + cap) ∙ add-mod_right index cap)
      ∙ add-mod-mod t index cap

  next_handle-IsNext : (i index : ℕ) → let n = next_handle cap i index in IsNext i index n.0 n.1
  next_handle-IsNext i index = elim (ℕ_discrete (add32 i index) 0) [
    | yes zero_handle ↦ rw (eq→== (add32 i index) 0 zero_handle) (record {
      nonzero = λ none_left. omega (arith, none_left, zero_handle, small, positive);
      word = mod-lt (i + add32 index cap) (omega arith);
      slot = wraps (i + add32 index cap) ∙ moved i index;
      onward = λ t. moved t index;
    })
    | no used ↦ rw (ne→== (add32 i index) 0 used) (record {
      nonzero = used;
      word = mod-lt (i + index) (omega arith);
      slot = wraps (i + index);
      onward = λ t. refl;
    })
  ]

  module _ (slots : ℕ → Option ℕ) where
    -- What `n` rounds from round `i` on come to: a handle for a free slot, or they saw no free slot.
    pub Probed : ℕ → ℕ → ℕ → ℕ × Option ℕ → Type 0
    Probed n i index (index', some handle) = (handle ≢ 0) × (slots (handle % cap) ≡ none)
    Probed n i index (index', none) = (t : ℕ) → t < n → slots ((i + t + index) % cap) ≢ none

    -- One more round that saw a taken slot.
    one_more :
        (n i index index' handle c : ℕ) (r : ℕ × Option ℕ)
        → IsNext i index index' handle
        → slots (handle % cap) ≡ some c
        → Probed n (i + 1) index' r
        → Probed (suc n) i index r
    unfolding Probed
    one_more n i index index' handle c (index'', some handle') v at r = r
    one_more n i index index' handle c (index'', none) v at r = seen
      where
        seen : (t : ℕ) → t < suc n → slots ((i + t + index) % cap) ≢ none
        seen zero lt free = absurd (
            let here = ap slots (v.slot ∙ same_slot (i + index) (i + 0 + index) (omega arith)) in
            cc)
        seen (suc t) lt free = r t (omega (arith, lt)) (
            ap slots (
              v.onward (i + 1 + t)
              ∙ same_slot (i + 1 + t + index) (i + suc t + index) (omega arith))
            ∙ free)

    pub probe-Probed : (n i index : ℕ) → Probed n i index (probe slots cap n i index)
    unfolding probe Probed
    probe-Probed zero i index = λ t lt _. omega (arith, lt)
    probe-Probed (suc n) i index = elim (Option-cases (slots (handle % cap))) [
      | inl free ↦ subst (Probed (suc n) i index) (sym (at_slot none free)) (v.nonzero, free)
      | inr (c, taken) ↦ subst (Probed (suc n) i index) (sym (at_slot (some c) taken)) (
          one_more n i index index' handle c (probe slots cap n (i + 1) index') v taken
            (probe-Probed n (i + 1) index'))
    ]
      where
        index' : ℕ
        index' = (next_handle cap i index).0

        handle : ℕ
        handle = (next_handle cap i index).1

        v : IsNext i index index' handle
        v = next_handle-IsNext i index

        at_slot :
            (o : Option ℕ)
            → slots (handle % cap) ≡ o
            → probe slots cap (suc n) i index
              ≡ elim o [ none ↦ (index', some handle) | some _ ↦ probe slots cap n (i + 1) index' ]
        at_slot o is =
            ap
              (λ o'. elim o' [
                | none ↦ (index', some handle)
                | some _ ↦ probe slots cap n (i + 1) index'
              ])
              (ap slots (hash_of-mod bits handle cap few e) ∙ is)

    pub found_free :
        (n i index index' handle : ℕ)
        → Probed n i index (index', some handle)
        → (handle ≢ 0) × (slots (handle % cap) ≡ none)
    unfolding Probed
    found_free n i index index' handle found = found

    -- A search through the whole table that finds nothing has seen every slot taken.
    pub saw_all :
        (index index' : ℕ) → Probed cap 0 index (index', none) → (j : ℕ) → j < cap → slots j ≢ none
    unfolding Probed
    saw_all index index' seen j lt free =
        seen ((j + (cap - index % cap)) % cap) (mod-lt (j + (cap - index % cap)) positive)
          (ap slots round ∙ free)
      where
        round : (0 + (j + (cap - index % cap)) % cap + index) % cap ≡ j
        round =
            same_slot (0 + gap % cap + index) (gap % cap + index) (omega arith)
            ∙ mod-add-mod gap cap index
            ∙ same_slot (gap + index) (j + cap * (index / cap) + cap)
                (omega (arith, div-add-mod index cap, mod-lt index positive))
            ∙ add-mod_right (j + cap * (index / cap)) cap
            ∙ add-mul-mod_self_left j cap (index / cap)
            ∙ mod-eq_of_lt lt
          where
            gap : ℕ
            gap = j + (cap - index % cap)
