-- ===== src/LuaHandle/Owners.antt =====
-- A reference is free exactly when neither side has it.
use node_lua.Common.{
  ℕ, ◌≡◌, refl, ap, ap₂, sym, subst, ◌∙◌, Option, none, some, Bool, true, false, ◌==◌,
  if◌then◌else◌, List, [], ◌∷◌, Bool-cases, inl, inr, ==_iff,
}
use node_lua.LuaHandle.{
  Slot, vacant, null, pointer, changed, release_slot, with_table, collect_owner, close_owner,
  Handles, Event, made, collected, answered, grab_ref, collect, response_handle_close, happens,
  happen_all,
}

-- What the table has for the two sides.
abbrev pub slot_of : Option ℕ → Bool → Slot
slot_of (some h) true = pointer h
slot_of (some h) false = null
slot_of none true = null
slot_of none false = vacant

abbrev pub IsOwned : Handles → Type 0
IsOwned s = (ref : ℕ) → s.table ref ≡ slot_of (s.lua ref) (s.uv ref)

abbrev pub Succeeds : Option Handles → Type 0
Succeeds r = (s : Handles) × (r ≡ some s) × IsOwned s

-- A change of all three at one reference.
puts-IsOwned :
    (s : Handles) (ref : ℕ) (slot : Slot) (h : Option ℕ) (b : Bool)
    → IsOwned s
    → slot ≡ slot_of h b
    → IsOwned (record {
      table = changed s.table ref slot;
      lua = changed s.lua ref h;
      uv = changed s.uv ref b;
    })
puts-IsOwned s ref slot h b owned e r = at (r == ref)
  where
    at :
        (c : Bool)
        → (if c then slot else s.table r)
          ≡ slot_of (if c then h else s.lua r) (if c then b else s.uv r)
    at true = e
    at false = owned r

grab_ref-IsOwned : (s : Handles) (h ref : ℕ) → IsOwned s → IsOwned (grab_ref s h ref)
unfolding grab_ref
grab_ref-IsOwned s h ref owned = grabbed (s.table ref)
  where
    grabbed :
        (slot : Slot)
        → IsOwned (elim slot [
          | vacant ↦ record {
            table = changed s.table ref (pointer h);
            lua = changed s.lua ref (some h);
            uv = changed s.uv ref true;
          }
          | null ↦ s
          | pointer h' ↦ s
        ])
    grabbed vacant = puts-IsOwned s ref (pointer h) (some h) true owned refl
    grabbed null = owned
    grabbed (pointer h') = owned

-- Putting back what is there.
keeps_value {ℓ} :
    {A : Type ℓ} (f : ℕ → A) (ref : ℕ) (a : A) → f ref ≡ a → (r : ℕ) → changed f ref a r ≡ f r
keeps_value f ref a e r = elim (Bool-cases (r == ref)) [
  | inl same ↦ rw same (sym e ∙ ap f (sym ((==_iff r ref).0 same)))
  | inr other ↦ rw other refl
]

collect-Succeeds : (s : Handles) (ref : ℕ) → IsOwned s → Succeeds (collect s ref)
collect-Succeeds s ref owned = by_owner (s.lua ref) (s.uv ref) refl refl
  where
    kept :
        (b : Bool) (slot : Slot)
        → s.uv ref ≡ b
        → slot ≡ slot_of none b
        → IsOwned (record s { table = changed s.table ref slot; lua = changed s.lua ref none })
    kept b slot e is r =
        puts-IsOwned s ref slot none b owned is r
        ∙ ap (slot_of (changed s.lua ref none r)) (keeps_value s.uv ref b e r)

    by_owner :
        (l : Option ℕ) (b : Bool) → s.lua ref ≡ l → s.uv ref ≡ b → Succeeds (collect_owner s ref l)
    by_owner none b el eb = (s, refl, owned)
    by_owner (some h) true el eb = (
      record s { table = changed s.table ref null; lua = changed s.lua ref none },
      ap
          (λ slot.
            with_table (release_slot s.table ref slot)
              (λ table. record s { table = table; lua = changed s.lua ref none }))
          (owned ref ∙ ap₂ slot_of el eb),
      kept true null eb refl,
    )
    by_owner (some h) false el eb = (
      record s { table = changed s.table ref vacant; lua = changed s.lua ref none },
      ap
          (λ slot.
            with_table (release_slot s.table ref slot)
              (λ table. record s { table = table; lua = changed s.lua ref none }))
          (owned ref ∙ ap₂ slot_of el eb),
      kept false vacant eb refl,
    )

response_handle_close-Succeeds :
    (s : Handles) (ref : ℕ) → IsOwned s → Succeeds (response_handle_close s ref)
response_handle_close-Succeeds s ref owned = by_owner (s.uv ref) (s.lua ref) refl refl
  where
    kept :
        (l : Option ℕ) (slot : Slot)
        → s.lua ref ≡ l
        → slot ≡ slot_of l false
        → IsOwned (record s { table = changed s.table ref slot; uv = changed s.uv ref false })
    kept l slot e is r =
        puts-IsOwned s ref slot l false owned is r
        ∙ ap (λ m. slot_of m (changed s.uv ref false r)) (keeps_value s.lua ref l e r)

    by_owner :
        (b : Bool) (l : Option ℕ) → s.uv ref ≡ b → s.lua ref ≡ l → Succeeds (close_owner s ref b)
    by_owner false l eb el = (s, refl, owned)
    by_owner true (some h) eb el = (
      record s { table = changed s.table ref null; uv = changed s.uv ref false },
      ap
          (λ slot.
            with_table (release_slot s.table ref slot)
              (λ table. record s { table = table; uv = changed s.uv ref false }))
          (owned ref ∙ ap₂ slot_of el eb),
      kept (some h) null el refl,
    )
    by_owner true none eb el = (
      record s { table = changed s.table ref vacant; uv = changed s.uv ref false },
      ap
          (λ slot.
            with_table (release_slot s.table ref slot)
              (λ table. record s { table = table; uv = changed s.uv ref false }))
          (owned ref ∙ ap₂ slot_of el eb),
      kept none vacant el refl,
    )

happens-Succeeds : (s : Handles) (e : Event) → IsOwned s → Succeeds (happens s e)
unfolding happens
happens-Succeeds s (made h ref) owned = (grab_ref s h ref, refl, grab_ref-IsOwned s h ref owned)
happens-Succeeds s (collected ref) owned = collect-Succeeds s ref owned
happens-Succeeds s (answered ref) owned = response_handle_close-Succeeds s ref owned

-- From a state in which every reference is as its owners want it, for every order in which handles are
-- made, Lua collects its handles and the answers to closed handles of libuv arrive: no reference is freed
-- twice, and in the end the table has the pointer to the handle of Lua where both sides have the
-- reference, a null pointer where one side has it, so that it is not given out again, and nothing in use
-- where neither has it.
pub happen_all-Succeeds :
    (s : Handles) (events : List Event) → IsOwned s → Succeeds (happen_all s events)
unfolding happen_all
happen_all-Succeeds s [] owned = (s, refl, owned)
happen_all-Succeeds s (e ∷ events) owned =
    let (s', run, owned') = happens-Succeeds s e owned in
    subst (λ r. Succeeds (elim r [ none ↦ none | some t ↦ happen_all t events ])) (sym run)
      (happen_all-Succeeds s' events owned')
