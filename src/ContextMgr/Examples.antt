-- ===== src/ContextMgr/Examples.antt =====
-- Contexts are registered until the table grows.
use node_lua.Common.{
  ℕ, ◌^◌, ◌-◌, ◌≡◌, ◌≢◌, ◌↔◌, refl, Option, none, some, Bool, true, ◌==◌, if◌then◌else◌, arith,
}
use node_lua.ContextMgr.{
  ContextMgr, init, put_handle, place, register_context, retire_context, grab_context,
  set_handle_index,
}
use node_lua.ContextMgr.Table.{IsTable, grab_context-finds, retire_context-retires}
use node_lua.ContextMgr.Register.{place-IsTable, register_context-registers}

abbrev fresh : ContextMgr
fresh = init (λ c. 0)

abbrev then_register : Option (Bool × ContextMgr) → ℕ → Option (Bool × ContextMgr)
then_register none c = none
then_register (some (done, mgr)) c = register_context 2 mgr c

abbrev five : Option (Bool × ContextMgr)
five =
    then_register
      (then_register (then_register (then_register (register_context 2 fresh 11) 12) 13) 14) 15

-- The fifth context finds the four slots taken, and its handle goes on from theirs.
grown :
    (elim five [
      | none ↦ none
      | some (done, mgr) ↦ if mgr.slot_cap == 16 then grab_context mgr 5 else none
    ])
    ≡ some 15
unfolding register_context grab_context
grown = refl

-- Handle 0 is skipped when the index wraps.
abbrev handle_of_12 : Option (Bool × ContextMgr) → ℕ
handle_of_12 none = 0
handle_of_12 (some (done, mgr)) = mgr.handles 12

skipped :
    handle_of_12 (then_register (register_context 2 (set_handle_index fresh (2 ^ 32 - 1)) 11) 12)
    ≡ 4
unfolding register_context set_handle_index
skipped = refl

fresh-IsTable : IsTable fresh
fresh-IsTable = record {
  bits = 2;
  few = omega arith;
  cap = refl;
  placed = λ j c e. absurd (cc);
  registered = λ c used. absurd (used refl);
}

-- Context 7 has handle 1.
abbrev one : ContextMgr
one = place fresh 7 1

one-IsTable : IsTable one
one-IsTable = place-IsTable fresh 7 1 fresh-IsTable refl (λ e. omega (arith, e)) refl

grab_context-finds_example :
    (grab_context one 1 ≡ some 7) ↔ ((one.handles 7 ≡ 1) × (◌≢◌ {A = ℕ} 1 0))
grab_context-finds_example = grab_context-finds one one-IsTable 1 7

retire_context-retires_example :
    (mgr' : ContextMgr) × (retire_context one 7 ≡ some mgr')
    × IsTable mgr'
    × ((d : ℕ) → mgr'.handles d ≡ put_handle one.handles 7 0 d)
retire_context-retires_example = retire_context-retires one 7 one-IsTable

register_context-registers_example :
    (handle : ℕ) × (mgr' : ContextMgr) × (register_context 2 one 8 ≡ some (true, mgr'))
    × (handle ≢ 0)
    × IsTable mgr'
    × ((d : ℕ) → mgr'.handles d ≡ put_handle one.handles 8 handle d)
register_context-registers_example =
    register_context-registers one 8 one-IsTable (omega arith) (λ e. omega (arith, e)) refl
