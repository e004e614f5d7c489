-- ===== src/ContextMgr/Table.antt =====
-- The table of contexts between two operations.
use native.Mathlib.Decide.{ℕ_discrete}
use node_lua.Common.{
  ℕ, ◌-◌, ◌<◌, ◌≤◌, ◌^◌, ◌%◌, ◌≡◌, ◌≢◌, ◌↔◌, refl, sym, ap, subst, ◌∙◌, Option, none, some, Bool,
  true, false, bit_and, ◌==◌, if◌then◌else◌, arith, ==_iff, eq→==, ne→==,
}
use node_lua.Common.Bits.{bit_and-mask, pow_pos, pow_mono}
use node_lua.Common.Words.{sub32}
use node_lua.ContextMgr.{
  ContextMgr, put_slot, put_handle, hash_of, is_at, grab_context, retire_context,
}

-- A table of a power of two of slots, in which the contexts that have a handle are those in the
-- slots, each in the slot of its handle.
pub record IsTable (mgr : ContextMgr) : Type 0 where
  pub bits : ℕ
  pub few : bits ≤ 31
  pub cap : mgr.slot_cap ≡ 2 ^ bits
  pub placed :
      (j c : ℕ) → mgr.ctx_slot j ≡ some c → (mgr.handles c ≢ 0) × (mgr.handles c % mgr.slot_cap ≡ j)
  pub registered :
      (c : ℕ) → mgr.handles c ≢ 0 → mgr.ctx_slot (mgr.handles c % mgr.slot_cap) ≡ some c

pub unsome {ℓ} : {A : Type ℓ} {a b : A} → some a ≡ some b → a ≡ b
unsome e = cc

==→eq : (a b : ℕ) → (a == b) ≡ true → a ≡ b
==→eq a b e = (==_iff a b).0 e

pub put_slot_same :
    (slots : ℕ → Option ℕ) (i j : ℕ) (v : Option ℕ) → j ≡ i → put_slot slots i v j ≡ v
put_slot_same slots i j v e = rw (eq→== j i e) refl

pub put_slot_other :
    (slots : ℕ → Option ℕ) (i j : ℕ) (v : Option ℕ) → j ≢ i → put_slot slots i v j ≡ slots j
put_slot_other slots i j v ne = rw (ne→== j i ne) refl

pub put_handle_same :
    (handles : ℕ → ℕ) (c d handle : ℕ) → d ≡ c → put_handle handles c handle d ≡ handle
put_handle_same handles c d handle e = rw (eq→== d c e) refl

pub put_handle_other :
    (handles : ℕ → ℕ) (c d handle : ℕ) → d ≢ c → put_handle handles c handle d ≡ handles d
put_handle_other handles c d handle ne = rw (ne→== d c ne) refl

pub below : (n : ℕ) → n ≤ 31 → 2 ^ n < 2 ^ 32
below n le = omega (arith, pow_mono n 31 le)

-- The mask of a power of two is the remainder.
pub hash_of-mod : (n handle cap : ℕ) → n ≤ 31 → cap ≡ 2 ^ n → hash_of cap handle ≡ handle % cap
hash_of-mod n handle cap le e =
    ap (bit_and handle) mask ∙ bit_and-mask n handle ∙ ap (λ p. handle % p) (sym e)
  where
    mask : sub32 cap 1 ≡ 2 ^ n - 1
    mask = omega (arith, e, below n le, pow_pos n)

module _ (mgr : ContextMgr) (v : IsTable mgr) where
  pub hash-mod : (handle : ℕ) → hash_of mgr.slot_cap handle ≡ handle % mgr.slot_cap
  hash-mod handle = hash_of-mod v.bits handle mgr.slot_cap v.few v.cap

  -- Two contexts have different handles.
  pub handles_distinct : (c d : ℕ) → mgr.handles c ≢ 0 → mgr.handles c ≡ mgr.handles d → c ≡ d
  handles_distinct c d some_handle e = unsome (
      sym (v.registered c some_handle)
      ∙ ap (λ h. mgr.ctx_slot (h % mgr.slot_cap)) e
      ∙ v.registered d (λ none_there. some_handle (e ∙ none_there)))

  in_slot :
      (handle c : ℕ)
      → mgr.ctx_slot (handle % mgr.slot_cap) ≡ some c
      → mgr.handles c ≡ handle
      → grab_context mgr handle ≡ some c
  unfolding grab_context
  in_slot handle c at e =
      ap (λ o. elim o [ none ↦ none | some d ↦ if mgr.handles d == handle then some d else none ])
        (ap mgr.ctx_slot (hash-mod handle) ∙ at)
      ∙ rw (eq→== (mgr.handles c) handle e) refl

  -- `grab_context` finds the context that has the handle, and none for any other number.
  pub grab_context-finds :
      (handle c : ℕ)
      → (grab_context mgr handle ≡ some c) ↔ ((mgr.handles c ≡ handle) × (handle ≢ 0))
  unfolding grab_context
  grab_context-finds handle c = (
    λ found. to (mgr.ctx_slot (hash_of mgr.slot_cap handle)) refl found,
    λ (e, some_handle).
        in_slot handle c
          (subst (λ h. mgr.ctx_slot (h % mgr.slot_cap) ≡ some c) e
            (v.registered c (λ none_there. some_handle (sym e ∙ none_there))))
          e,
  )
    where
      at_handle :
          (d : ℕ) (b : Bool)
          → (mgr.handles d == handle) ≡ b
          → mgr.ctx_slot (hash_of mgr.slot_cap handle) ≡ some d
          → ◌≡◌ {A = Option ℕ} (if b then some d else none) (some c)
          → (mgr.handles c ≡ handle) × (handle ≢ 0)
      at_handle d true same at found =
          subst (λ x. (mgr.handles x ≡ handle) × (handle ≢ 0)) (unsome found)
            (
              ==→eq (mgr.handles d) handle same,
              λ e.
                  (v.placed (hash_of mgr.slot_cap handle) d at).0
                    (==→eq (mgr.handles d) handle same ∙ e),
            )
      at_handle d false same at found = absurd (cc)

      to :
          (o : Option ℕ)
          → mgr.ctx_slot (hash_of mgr.slot_cap handle) ≡ o
          → ◌≡◌ {A = Option ℕ}
              (elim o [ none ↦ none | some d ↦ if mgr.handles d == handle then some d else none ])
              (some c)
          → (mgr.handles c ≡ handle) × (handle ≢ 0)
      to none at found = absurd (cc)
      to (some d) at found = at_handle d (mgr.handles d == handle) refl at found

-- Taking a context out of the table.
module _ (mgr : ContextMgr) (v : IsTable mgr) (c : ℕ) (some_handle : mgr.handles c ≢ 0) where
  pub without : ContextMgr
  without = record mgr {
    ctx_slot = put_slot mgr.ctx_slot (mgr.handles c % mgr.slot_cap) none;
    ctx_size = sub32 mgr.ctx_size 1;
    handles = put_handle mgr.handles c 0;
  }

  at : ℕ
  at = mgr.handles c % mgr.slot_cap

  without-IsTable : IsTable without
  unfolding without at
  without-IsTable = record {
    bits = v.bits;
    few = v.few;
    cap = v.cap;
    placed = placed;
    registered = registered;
  }
    where
      placed :
          (j d : ℕ)
          → put_slot mgr.ctx_slot (mgr.handles c % mgr.slot_cap) none j ≡ some d
          → (put_handle mgr.handles c 0 d ≢ 0) × (put_handle mgr.handles c 0 d % mgr.slot_cap ≡ j)
      placed j d e = elim (ℕ_discrete j at) [
        | yes same ↦ absurd (let empty = put_slot_same mgr.ctx_slot at j none same in cc)
        | no other ↦
            let there = sym (put_slot_other mgr.ctx_slot at j none other) ∙ e in
            let not_c = (λ (is : d ≡ c).
              other (sym ((v.placed j d there).1) ∙ ap (λ x. mgr.handles x % mgr.slot_cap) is)) in
            subst (λ h. (h ≢ 0) × (h % mgr.slot_cap ≡ j))
              (sym (put_handle_other mgr.handles c d 0 not_c)) (v.placed j d there)
      ]

      registered :
          (d : ℕ)
          → put_handle mgr.handles c 0 d ≢ 0
          → put_slot mgr.ctx_slot
              (mgr.handles c % mgr.slot_cap)
              none
              (put_handle mgr.handles c 0 d % mgr.slot_cap)
            ≡ some d
      registered d left = elim (ℕ_discrete d c) [
        | yes same ↦ absurd (left (put_handle_same mgr.handles c d 0 same))
        | no other ↦
            let kept = put_handle_other mgr.handles c d 0 other in
            let there = v.registered d (λ e. left (kept ∙ e)) in
            subst (λ h. put_slot mgr.ctx_slot at none (h % mgr.slot_cap) ≡ some d) (sym kept)
              (put_slot_other mgr.ctx_slot at (mgr.handles d % mgr.slot_cap) none
                  (λ e. other (unsome (sym there ∙ ap mgr.ctx_slot e ∙ v.registered c some_handle)))
                ∙ there)
      ]

-- A context is retired without a fault: it has no handle any more, every other context keeps its own,
-- and the table stays well-formed. So `grab_context` finds it under no handle, and the others as before.
pub retire_context-retires :
    (mgr : ContextMgr) (c : ℕ)
    → IsTable mgr
    → (mgr' : ContextMgr) × (retire_context mgr c ≡ some mgr')
      × IsTable mgr'
      × ((d : ℕ) → mgr'.handles d ≡ put_handle mgr.handles c 0 d)
unfolding retire_context without
retire_context-retires mgr c v = elim (ℕ_discrete (mgr.handles c) 0) [
  | yes no_handle ↦ (mgr, rw (eq→== (mgr.handles c) 0 no_handle) refl, v, unchanged no_handle)
  | no some_handle ↦ (
    without mgr v c some_handle,
    retires some_handle,
    without-IsTable mgr v c some_handle,
    λ d. refl,
  )
]
  where
    unchanged : mgr.handles c ≡ 0 → (d : ℕ) → mgr.handles d ≡ put_handle mgr.handles c 0 d
    unchanged no_handle d = elim (ℕ_discrete d c) [
      | yes same ↦ ap mgr.handles same ∙ no_handle ∙ sym (put_handle_same mgr.handles c d 0 same)
      | no other ↦ sym (put_handle_other mgr.handles c d 0 other)
    ]

    taken : ℕ → ContextMgr
    taken i = record mgr {
      ctx_slot = put_slot mgr.ctx_slot i none;
      ctx_size = sub32 mgr.ctx_size 1;
      handles = put_handle mgr.handles c 0;
    }

    retires : mgr.handles c ≢ 0 → retire_context mgr c ≡ some (taken (mgr.handles c % mgr.slot_cap))
    retires some_handle = rw (ne→== (mgr.handles c) 0 some_handle) (
        ap (λ i. if is_at (mgr.ctx_slot i) c then some (taken i) else none)
          (hash-mod mgr v (mgr.handles c))
        ∙ ap (λ o. if is_at o c then some (taken (mgr.handles c % mgr.slot_cap)) else none)
            (v.registered c some_handle)
        ∙ rw (eq→== c c refl) refl)
