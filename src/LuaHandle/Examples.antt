-- ===== src/LuaHandle/Examples.antt =====
-- A handle that both sides give up, and whose reference is used again.
use node_lua.Common.{ℕ, ◌≡◌, refl, List, [], ◌∷◌, Option, none, some}
use node_lua.LuaHandle.{
  Handles, no_handles, Event, made, collected, answered, happen_all, Slot, pointer,
}
use node_lua.LuaHandle.Owners.{Succeeds, happen_all-Succeeds}

abbrev reuse : List Event
reuse = made 10 1 ∷ collected 1 ∷ made 11 1 ∷ made 12 2 ∷ answered 1 ∷ made 13 1 ∷ []

happen_all-Succeeds_example : Succeeds (happen_all no_handles reuse)
happen_all-Succeeds_example = happen_all-Succeeds no_handles reuse (λ ref. refl)

-- The handle 11 does not get the reference, since the answer for handle 10 has not come.
table_at : Option Handles → ℕ → Option Slot
table_at none ref = none
table_at (some s) ref = some (s.table ref)

reuse_run : table_at (happen_all no_handles reuse) 1 ≡ some (pointer 13)
unfolding table_at happen_all
reuse_run = refl
