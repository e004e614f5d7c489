-- ===== src/ContextMgr/Register.antt =====
-- `register_context`: a context without a handle gets one.
use native.Mathlib.Decide.{ℕ_discrete, dec_le}
use node_lua.Common.{
  ℕ, suc, ◌<◌, ◌≤◌, ◌^◌, ◌%◌, ◌≡◌, ◌≢◌, refl, sym, ap, subst, ◌∙◌, Option, none, some, Bool, true,
  ◌==◌, if◌then◌else◌, arith, eq→==, ne→==,
}
use node_lua.Common.Bits.{pow_mono}
use node_lua.ContextMgr.{
  ContextMgr, put_slot, put_handle, probe, place, expand_slot, register_loop, register_context,
  max_ctx_size,
}
use node_lua.ContextMgr.Table.{
  IsTable, hash-mod, unsome, put_slot_same, put_slot_other, put_handle_same, put_handle_other,
}
use node_lua.ContextMgr.Probe.{Probed, probe-Probed, found_free, saw_all}
use node_lua.ContextMgr.Expand.{expand_slot-Grown}

pub place-IsTable :
    (mgr : ContextMgr) (c handle : ℕ)
    → (v : IsTable mgr) → mgr.handles c ≡ 0
    → handle ≢ 0
    → mgr.ctx_slot (handle % mgr.slot_cap) ≡ none
    → IsTable (place mgr c handle)
place-IsTable mgr c handle v new used free =
    subst (λ i. IsTable (at i)) (sym (hash-mod mgr v handle))
      (record { bits = v.bits; few = v.few; cap = v.cap; placed = placed; registered = registered })
  where
    i : ℕ
    i = handle % mgr.slot_cap

    at : ℕ → ContextMgr
    at k = record (place mgr c handle) { ctx_slot = put_slot mgr.ctx_slot k (some c) }

    placed :
        (j d : ℕ)
        → put_slot mgr.ctx_slot i (some c) j ≡ some d
        → (put_handle mgr.handles c handle d ≢ 0)
          × (put_handle mgr.handles c handle d % mgr.slot_cap ≡ j)
    placed j d e = elim (ℕ_discrete j i) [
      | yes same ↦
          let is = unsome (sym (put_slot_same mgr.ctx_slot i j (some c) same) ∙ e) in
          subst (λ h. (h ≢ 0) × (h % mgr.slot_cap ≡ j))
            (sym (put_handle_same mgr.handles c d handle (sym is))) (used, sym same)
      | no other ↦
          let there = v.placed j d (sym (put_slot_other mgr.ctx_slot i j (some c) other) ∙ e) in
          subst (λ h. (h ≢ 0) × (h % mgr.slot_cap ≡ j))
            (sym
              (put_handle_other mgr.handles c d handle (λ is. there.0 (ap mgr.handles is ∙ new))))
            there
    ]

    registered :
        (d : ℕ)
        → put_handle mgr.handles c handle d ≢ 0
        → put_slot mgr.ctx_slot i (some c) (put_handle mgr.handles c handle d % mgr.slot_cap)
          ≡ some d
    registered d left = elim (ℕ_discrete d c) [
      | yes same ↦
          subst (λ h. put_slot mgr.ctx_slot i (some c) (h % mgr.slot_cap) ≡ some d)
            (sym (put_handle_same mgr.handles c d handle same))
            (put_slot_same mgr.ctx_slot i i (some c) refl ∙ ap some (sym same))
      | no other ↦
          let kept = put_handle_other mgr.handles c d handle other in
          let there = v.registered d (λ e. left (kept ∙ e)) in
          subst (λ h. put_slot mgr.ctx_slot i (some c) (h % mgr.slot_cap) ≡ some d) (sym kept)
            (put_slot_other mgr.ctx_slot i (mgr.handles d % mgr.slot_cap) (some c)
                (λ e. absurd (let there' = sym there ∙ ap mgr.ctx_slot e ∙ free in cc))
              ∙ there)
    ]

-- A context that comes from the loop with a handle.
record Places (fuel : ℕ) (mgr : ContextMgr) (c : ℕ) : Type 0 where
  handle : ℕ
  mgr' : ContextMgr
  run : register_loop fuel mgr c ≡ some mgr'
  used : handle ≢ 0
  table : IsTable mgr'
  handles : (d : ℕ) → mgr'.handles d ≡ put_handle mgr.handles c handle d

module _ (mgr : ContextMgr) (v : IsTable mgr) (c : ℕ) (new : mgr.handles c ≡ 0) (fuel : ℕ) where
  search : ℕ × Option ℕ
  search = probe mgr.ctx_slot mgr.slot_cap mgr.slot_cap 0 mgr.handle_index

  one_round :
      (index : ℕ) (found : Option ℕ)
      → search ≡ (index, found)
      → register_loop (suc fuel) mgr c ≡ elim found [
        | some handle ↦ some (place mgr c handle)
        | none ↦ elim (expand_slot (record mgr { handle_index = index })) [
          | none ↦ none
          | some mgr' ↦ register_loop fuel mgr' c
        ]
      ]
  unfolding register_loop search
  one_round index found e =
      ap {B = Option ContextMgr}
        (λ r. elim r.1 [
          | some handle ↦ some (place mgr c handle)
          | none ↦ elim (expand_slot (record mgr { handle_index = r.0 })) [
            | none ↦ none
            | some mgr' ↦ register_loop fuel mgr' c
          ]
        ])
        e

  seen : Probed v.bits mgr.slot_cap v.few v.cap mgr.ctx_slot mgr.slot_cap 0 mgr.handle_index search
  unfolding search
  seen = probe-Probed v.bits mgr.slot_cap v.few v.cap mgr.ctx_slot mgr.slot_cap 0 mgr.handle_index

  probed :
      (index : ℕ) (found : Option ℕ)
      → search ≡ (index, found)
      → Probed v.bits mgr.slot_cap v.few v.cap mgr.ctx_slot mgr.slot_cap 0 mgr.handle_index
          (index, found)
  probed index found e =
      subst (Probed v.bits mgr.slot_cap v.few v.cap mgr.ctx_slot mgr.slot_cap 0 mgr.handle_index) e
        seen

  found-Places : (index handle : ℕ) → search ≡ (index, some handle) → Places (suc fuel) mgr c
  found-Places index handle e =
      let (used, free) =
        found_free v.bits mgr.slot_cap v.few v.cap mgr.ctx_slot mgr.slot_cap 0 mgr.handle_index
          index handle (probed index (some handle) e) in
      record {
        handle = handle;
        mgr' = place mgr c handle;
        run = one_round index (some handle) e;
        used = used;
        table = place-IsTable mgr c handle v new used free;
        handles = λ d. refl;
      }

  full_table :
      (index : ℕ) → search ≡ (index, none) → (j : ℕ) → j < mgr.slot_cap → mgr.ctx_slot j ≢ none
  full_table index e =
      saw_all v.bits mgr.slot_cap v.few v.cap mgr.ctx_slot mgr.handle_index index
        (probed index none e)

  -- With a free slot one round is enough.
  free-Places : (j : ℕ) → j < mgr.slot_cap → mgr.ctx_slot j ≡ none → Places (suc fuel) mgr c
  free-Places j lt free = by_search search.0 search.1 refl
    where
      by_search : (index : ℕ) (found : Option ℕ) → search ≡ (index, found) → Places (suc fuel) mgr c
      by_search index (some handle) e = found-Places index handle e
      by_search index none e = absurd (full_table index e j lt free)

-- A table that is full grows, and has a free slot then.
two_rounds :
    (mgr : ContextMgr) (v : IsTable mgr) (c : ℕ) → mgr.handles c ≡ 0 → v.bits ≤ 29 → Places 2 mgr c
two_rounds mgr v c new roomy = by_search (search mgr v c new 1).0 (search mgr v c new 1).1 refl
  where
    by_search :
        (index : ℕ) (found : Option ℕ) → search mgr v c new 1 ≡ (index, found) → Places 2 mgr c
    by_search index (some handle) e = found-Places mgr v c new 1 index handle e
    by_search index none e =
        let (mgr', grows, g) =
          expand_slot-Grown (moved index) (moved_table index) roomy
            (full_table mgr v c new 1 index e) in
        let (j, lt, free) = g.free in
        let p = free-Places mgr' g.table c (g.same_handles c ∙ new) 0 j lt free in
        record {
          handle = p.handle;
          mgr' = p.mgr';
          run =
              one_round mgr v c new 1 index none e
              ∙ after_growing mgr' (expand_slot (moved index)) grows
              ∙ p.run;
          used = p.used;
          table = p.table;
          handles = λ d. p.handles d ∙ ap (λ h. if d == c then p.handle else h) (g.same_handles d);
        }
      where
        moved : ℕ → ContextMgr
        moved index' = record mgr { handle_index = index' }

        moved_table : (index' : ℕ) → IsTable (moved index')
        moved_table index' = record {
          bits = v.bits;
          few = v.few;
          cap = v.cap;
          placed = v.placed;
          registered = v.registered;
        }

        after_growing :
            (mgr' : ContextMgr) (o : Option ContextMgr)
            → o ≡ some mgr'
            → (elim o [ none ↦ none | some grown ↦ register_loop 1 grown c ])
              ≡ register_loop 1 mgr' c
        after_growing mgr' o is =
            ap (λ o'. elim o' [ none ↦ none | some grown ↦ register_loop 1 grown c ]) is

-- A context without a handle is registered, in at most two rounds of the endless loop and without a
-- fault, while the table has fewer than 2^30 slots and is not at its maximum: it gets a handle other
-- than 0, every other context keeps its own, and the table stays well-formed, so that no two contexts
-- have one handle.
pub register_context-registers :
    (mgr : ContextMgr) (c : ℕ)
    → IsTable mgr
    → mgr.slot_cap < 2 ^ 30
    → mgr.ctx_size ≢ max_ctx_size
    → mgr.handles c ≡ 0
    → (handle : ℕ) × (mgr' : ContextMgr) × (register_context 2 mgr c ≡ some (true, mgr'))
      × (handle ≢ 0)
      × IsTable mgr'
      × ((d : ℕ) → mgr'.handles d ≡ put_handle mgr.handles c handle d)
unfolding register_context
register_context-registers mgr c v room below_max new =
    let p = two_rounds mgr v c new (few_bits v.bits v.cap) in
    (p.handle, p.mgr', registers p.mgr' p.run, p.used, p.table, p.handles)
  where
    few_bits : (bits : ℕ) → mgr.slot_cap ≡ 2 ^ bits → bits ≤ 29
    few_bits bits e = elim (dec_le bits 29) [
      | yes le ↦ le
      | no more ↦ absurd (omega (arith, room, e, pow_mono 30 bits (omega (arith, more))))
    ]

    registers :
        (mgr' : ContextMgr)
        → register_loop 2 mgr c ≡ some mgr'
        → register_context 2 mgr c ≡ some (true, mgr')
    registers mgr' run =
        rw (ne→== mgr.ctx_size max_ctx_size below_max, eq→== (mgr.handles c) 0 new)
          (ap {B = Option (Bool × ContextMgr)}
            (λ o. elim o [ none ↦ none | some m ↦ some (true, m) ]) run)
