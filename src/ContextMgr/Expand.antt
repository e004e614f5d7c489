-- ===== src/ContextMgr/Expand.antt =====
-- `expand_slot` on a full table.
use native.Mathlib.Decide.{ℕ_discrete}
use native.Mathlib.Nat.{
  mod-lt, mod-eq_of_lt, mod_self, mul_assoc, add-mul-mod_self_left, mod-add-div,
}
use node_lua.Common.{
  ℕ, zero, suc, ◌+◌, ◌<◌, ◌≤◌, ◌^◌, ◌%◌, ◌/◌, ◌*◌, ◌≡◌, ◌≢◌, refl, sym, ap, subst, ◌∙◌, Option,
  none, some, Option-cases, arith, inl, inr,
}
use node_lua.Common.Bits.{pow_pos, pow_mono}
use node_lua.Common.Words.{shl32}
use node_lua.ContextMgr.{ContextMgr, put_slot, hash_of, rehash, expand_slot}
use node_lua.ContextMgr.Table.{IsTable, hash_of-mod, unsome, put_slot_same, put_slot_other}
use node_lua.ContextMgr.Probe.{pow_split}

-- What the new table holds after the slots below `i`.
record IsCopied (mgr : ContextMgr) (new_cap i : ℕ) (new_slot : ℕ → Option ℕ) : Type 0 where
  from :
      (j c : ℕ)
      → new_slot j ≡ some c
      → (k : ℕ) × (k < i) × (mgr.ctx_slot k ≡ some c) × (mgr.handles c % new_cap ≡ j)
  to : (k c : ℕ) → k < i → mgr.ctx_slot k ≡ some c → new_slot (mgr.handles c % new_cap) ≡ some c

mod_multiple : (a c q : ℕ) → a % (c * q) % c ≡ a % c
mod_multiple a c q =
    sym (add-mul-mod_self_left (a % (c * q)) c (q * (a / (c * q))))
    ∙ ap (λ n. n % c)
        (ap (λ n. a % (c * q) + n) (sym (mul_assoc c q (a / (c * q)))) ∙ mod-add-div a (c * q))

module _ (mgr : ContextMgr) (v : IsTable mgr) (roomy : v.bits ≤ 29) where
  new_cap : ℕ
  new_cap = shl32 mgr.slot_cap 2

  quadruple : new_cap ≡ mgr.slot_cap * 4
  unfolding new_cap
  quadruple = omega (arith, v.cap, pow_mono v.bits 29 roomy)

  new_cap_is : new_cap ≡ 2 ^ (v.bits + 2)
  unfolding new_cap
  new_cap_is = quadruple ∙ ap (λ n. n * 4) v.cap ∙ sym (pow_split v.bits 2)

  fine : (a : ℕ) → a % new_cap % mgr.slot_cap ≡ a % mgr.slot_cap
  fine a = ap (λ n. a % n % mgr.slot_cap) quadruple ∙ mod_multiple a mgr.slot_cap 4

  -- Handles in one slot of the new table are in one slot of the old.
  coarser : (a b : ℕ) → a % new_cap ≡ b % new_cap → a % mgr.slot_cap ≡ b % mgr.slot_cap
  coarser a b same = sym (fine a) ∙ ap (λ n. n % mgr.slot_cap) same ∙ fine b

  new_hash : (handle : ℕ) → hash_of new_cap handle ≡ handle % new_cap
  new_hash handle = hash_of-mod (v.bits + 2) handle new_cap (omega (arith, roomy)) new_cap_is

  -- The context of slot `i` comes to a slot that is free.
  free_for :
      (i c : ℕ) (new_slot : ℕ → Option ℕ)
      → IsCopied mgr new_cap i new_slot
      → mgr.ctx_slot i ≡ some c
      → new_slot (mgr.handles c % new_cap) ≡ none
  free_for i c new_slot copied at = elim (Option-cases (new_slot (mgr.handles c % new_cap))) [
    | inl free ↦ free
    | inr (d, taken) ↦
        let (k, lt, from, hash) = copied.from (mgr.handles c % new_cap) d taken in
        absurd (
          let same = coarser (mgr.handles d) (mgr.handles c) hash in
          omega (arith, lt, same, (v.placed k d from).1, (v.placed i c at).1))
  ]

  put-IsCopied :
      (i c : ℕ) (new_slot : ℕ → Option ℕ)
      → IsCopied mgr new_cap i new_slot
      → mgr.ctx_slot i ≡ some c
      → IsCopied mgr new_cap (i + 1) (put_slot new_slot (mgr.handles c % new_cap) (some c))
  put-IsCopied i c new_slot copied at = record { from = from; to = to }
    where
      h : ℕ
      h = mgr.handles c % new_cap

      from :
          (j d : ℕ)
          → put_slot new_slot h (some c) j ≡ some d
          → (k : ℕ) × (k < i + 1) × (mgr.ctx_slot k ≡ some d) × (mgr.handles d % new_cap ≡ j)
      from j d e = elim (ℕ_discrete j h) [
        | yes same ↦
            let is = unsome (sym (put_slot_same new_slot h j (some c) same) ∙ e) in
            (i, omega arith, at ∙ ap some is, ap (λ x. mgr.handles x % new_cap) (sym is) ∙ sym same)
        | no other ↦
            let (k, lt, there, hash) =
              copied.from j d (sym (put_slot_other new_slot h j (some c) other) ∙ e) in
            (k, omega (arith, lt), there, hash)
      ]

      to :
          (k d : ℕ)
          → k < i + 1
          → mgr.ctx_slot k ≡ some d
          → put_slot new_slot h (some c) (mgr.handles d % new_cap) ≡ some d
      to k d lt there = elim (ℕ_discrete k i) [
        | yes last ↦
            let is = unsome (sym there ∙ ap mgr.ctx_slot last ∙ at) in
            put_slot_same new_slot h (mgr.handles d % new_cap) (some c)
              (ap (λ x. mgr.handles x % new_cap) is)
            ∙ ap some (sym is)
        | no earlier ↦
            let kept = copied.to k d (omega (arith, lt, earlier)) there in
            put_slot_other new_slot h (mgr.handles d % new_cap) (some c) (λ same. absurd (
              let free = free_for i c new_slot copied at ∙ refl in
              let moved = ap new_slot same in cc))
            ∙ kept
      ]

  rehash-IsCopied :
      (rounds i : ℕ) (new_slot : ℕ → Option ℕ)
      → i + rounds ≡ mgr.slot_cap
      → ((j : ℕ) → j < mgr.slot_cap → mgr.ctx_slot j ≢ none)
      → IsCopied mgr new_cap i new_slot
      → (new_slot' : ℕ → Option ℕ) × (rehash mgr.handles mgr.ctx_slot new_cap rounds i new_slot
          ≡ some new_slot')
        × IsCopied mgr new_cap mgr.slot_cap new_slot'
  unfolding rehash
  rehash-IsCopied zero i new_slot e full copied =
      (new_slot, refl, subst (λ n. IsCopied mgr new_cap n new_slot) (omega (arith, e)) copied)
  rehash-IsCopied (suc rounds) i new_slot e full copied = elim (Option-cases (mgr.ctx_slot i)) [
    | inl empty ↦ absurd (full i (omega (arith, e)) empty)
    | inr (c, at) ↦
        let (new_slot', run, copied') =
          rehash-IsCopied rounds (i + 1) (put_slot new_slot (mgr.handles c % new_cap) (some c))
            (omega (arith, e)) full (put-IsCopied i c new_slot copied at) in
        (new_slot', taken c at ∙ run, copied')
  ]
    where
      Goes : Type 0
      Goes = Option (ℕ → Option ℕ)

      goes : ℕ → ℕ → Goes
      goes h c =
          rehash mgr.handles mgr.ctx_slot new_cap rounds (i + 1) (put_slot new_slot h (some c))

      taken :
          (c : ℕ)
          → mgr.ctx_slot i ≡ some c
          → rehash mgr.handles mgr.ctx_slot new_cap (suc rounds) i new_slot
            ≡ goes (mgr.handles c % new_cap) c
      taken c at =
          ap {B = Goes}
            (λ o. elim o [
              | none ↦ none
              | some d ↦ elim (new_slot (hash_of new_cap (mgr.handles d))) [
                | some _ ↦ none
                | none ↦ goes (hash_of new_cap (mgr.handles d)) d
              ]
            ])
            at
          ∙ ap {B = Goes} (λ h. elim (new_slot h) [ some _ ↦ none | none ↦ goes h c ])
              (new_hash (mgr.handles c))
          ∙ ap {B = Goes} (λ o. elim o [ some _ ↦ none | none ↦ goes (mgr.handles c % new_cap) c ])
              (free_for i c new_slot copied at)

  -- A full table grows without a fault to a table of four times as many slots, in which every context
  -- keeps its handle and a slot is free.
  pub record Grown (mgr' : ContextMgr) : Type 0 where
    pub table : IsTable mgr'
    pub same_handles : (d : ℕ) → mgr'.handles d ≡ mgr.handles d
    pub free : (j : ℕ) × (j < mgr'.slot_cap) × (mgr'.ctx_slot j ≡ none)

  grown :
      (new_slot : ℕ → Option ℕ)
      → IsCopied mgr new_cap mgr.slot_cap new_slot
      → Grown (record mgr { ctx_slot = new_slot; slot_cap = new_cap })
  grown new_slot copied = record {
    table = record {
      bits = v.bits + 2;
      few = omega (arith, roomy);
      cap = new_cap_is;
      placed =
          λ j c e. (let (k, lt, there, hash) = copied.from j c e in ((v.placed k c there).0, hash));
      registered = λ c used.
          copied.to (mgr.handles c % mgr.slot_cap) c (mod-lt (mgr.handles c) some_slots)
            (v.registered c used);
    };
    same_handles = λ d. refl;
    free = free;
  }
    where
      some_slots : 0 < mgr.slot_cap
      some_slots = omega (arith, v.cap, pow_pos v.bits)

      -- Slots that are taken and have one remainder are one slot.
      from_first :
          (j c : ℕ)
          → new_slot j ≡ some c
          → j % mgr.slot_cap ≡ 0
          → (mgr.ctx_slot 0 ≡ some c) × (mgr.handles c % new_cap ≡ j)
      from_first j c e multiple =
          let (k, lt, there, hash) = copied.from j c e in
          (
            ap mgr.ctx_slot (
                  sym (
                    sym ((v.placed k c there).1)
                    ∙ sym (fine (mgr.handles c))
                    ∙ ap (λ n. n % mgr.slot_cap) hash
                    ∙ multiple))
                ∙ there,
            hash,
          )

      free : (j : ℕ) × (j < new_cap) × (new_slot j ≡ none)
      free = elim (Option-cases (new_slot 0)) [
        | inl empty ↦ (0, omega (arith, quadruple, some_slots), empty)
        | inr (c, first) ↦ elim (Option-cases (new_slot mgr.slot_cap)) [
          | inl empty ↦ (mgr.slot_cap, omega (arith, quadruple, some_slots), empty)
          | inr (d, second) ↦
              let (at_c, hash_c) = from_first 0 c first (mod-eq_of_lt some_slots) in
              let (at_d, hash_d) = from_first mgr.slot_cap d second (mod_self mgr.slot_cap) in
              let one = unsome (sym at_c ∙ at_d) in
              absurd
                (omega (arith, some_slots, hash_c, hash_d, ap (λ x. mgr.handles x % new_cap) one))
        ]
      ]

  pub expand_slot-Grown :
      ((j : ℕ) → j < mgr.slot_cap → mgr.ctx_slot j ≢ none)
      → (mgr' : ContextMgr) × (expand_slot mgr ≡ some mgr') × Grown mgr'
  unfolding expand_slot new_cap
  expand_slot-Grown full =
      let (new_slot, run, copied) =
        rehash-IsCopied mgr.slot_cap 0 (λ i. none) (omega arith) full nothing in
      (
        record mgr { ctx_slot = new_slot; slot_cap = new_cap },
        grows new_slot run,
        grown new_slot copied,
      )
    where
      nothing : IsCopied mgr new_cap 0 (λ i. none)
      nothing = record { from = λ j c e. absurd (cc); to = λ k c lt _. absurd (omega (arith, lt)) }

      grows :
          (new_slot : ℕ → Option ℕ)
          → rehash mgr.handles mgr.ctx_slot new_cap mgr.slot_cap 0 (λ i. none) ≡ some new_slot
          → expand_slot mgr ≡ some (record mgr { ctx_slot = new_slot; slot_cap = new_cap })
      grows new_slot run =
          ap {B = Option ContextMgr}
            (λ o. elim o [
              | none ↦ none
              | some slots ↦ some (record mgr { ctx_slot = slots; slot_cap = new_cap })
            ])
            run
