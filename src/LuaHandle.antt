-- ===== src/LuaHandle.antt =====
-- src/lua_handle_base.cpp and src/uv_handle_base.cpp: the reference by which a handle of libuv and its
-- handle in Lua know each other, a key of a table in Lua, and its release in two steps. The table is a
-- function from references, and which one `luaL_ref` gives is part of the event.
pub mod Owners
mod Examples
use node_lua.Common.{ℕ, Option, none, some, Bool, true, false, ◌==◌, if◌then◌else◌, List, [], ◌∷◌}

-- What the table has at a reference: none that is in use, a null pointer, or a handle of Lua.
pub data Slot : Type 0 where
  vacant null : Slot
  pointer : ℕ → Slot

-- A map with one value changed.
abbrev pub changed {ℓ} : {A : Type ℓ} → (ℕ → A) → ℕ → A → ℕ → A
changed table ref a r = if r == ref then a else table r

-- release_ref, of a reference that is not LUA_REFNIL. One that is not in use would be freed twice, which
-- is `none`.
abbrev pub release_slot : (ℕ → Slot) → ℕ → Slot → Option (ℕ → Slot)
release_slot table ref (pointer h) = some (changed table ref null)
release_slot table ref null = some (changed table ref vacant)
release_slot table ref vacant = none

abbrev pub release_ref : (ℕ → Slot) → ℕ → Option (ℕ → Slot)
release_ref table ref = release_slot table ref (table ref)

-- get_lua_handle
pub get_lua_handle : (ℕ → Slot) → ℕ → Option ℕ
get_lua_handle table ref = elim (table ref) [ pointer h ↦ some h | null ↦ none | vacant ↦ none ]

-- The handles of Lua that are not collected, by their `m_lua_ref`, and those of libuv that have not
-- been deleted with the message RESPONSE_HANDLE_CLOSE received.
pub record Handles : Type 0 where
  pub table : ℕ → Slot
  pub lua : ℕ → Option ℕ
  pub uv : ℕ → Bool

abbrev pub no_handles : Handles
no_handles = record { table = λ r. vacant; lua = λ r. none; uv = λ r. false }

-- A handle of Lua is made for a new one of libuv, with the reference that `luaL_ref` gives; Lua collects
-- a handle; the context receives RESPONSE_HANDLE_CLOSE.
pub data Event : Type 0 where
  made : ℕ → ℕ → Event
  collected answered : ℕ → Event

-- grab_ref for a handle whose reference is LUA_REFNIL. `luaL_ref` gives no reference that is in use.
pub grab_ref : Handles → ℕ → ℕ → Handles
grab_ref s h ref = elim (s.table ref) [
  | vacant ↦ record {
    table = changed s.table ref (pointer h);
    lua = changed s.lua ref (some h);
    uv = changed s.uv ref true;
  }
  | null ↦ s
  | pointer h' ↦ s
]

abbrev pub with_table : Option (ℕ → Slot) → ((ℕ → Slot) → Handles) → Option Handles
with_table none rest = none
with_table (some table) rest = some (rest table)

abbrev pub collect_owner : Handles → ℕ → Option ℕ → Option Handles
collect_owner s ref none = some s
collect_owner s ref (some h) =
    with_table (release_ref s.table ref)
      (λ table. record s { table = table; lua = changed s.lua ref none })

-- release, of a handle that Lua collects, which it does once.
abbrev pub collect : Handles → ℕ → Option Handles
collect s ref = collect_owner s ref (s.lua ref)

abbrev pub close_owner : Handles → ℕ → Bool → Option Handles
close_owner s ref false = some s
close_owner s ref true =
    with_table (release_ref s.table ref)
      (λ table. record s { table = table; uv = changed s.uv ref false })

-- response_handle_close, for which on_closed has sent the message once, when it deleted the handle.
abbrev pub response_handle_close : Handles → ℕ → Option Handles
response_handle_close s ref = close_owner s ref (s.uv ref)

pub happens : Handles → Event → Option Handles
unfolding grab_ref
happens s (made h ref) = some (grab_ref s h ref)
happens s (collected ref) = collect s ref
happens s (answered ref) = response_handle_close s ref

pub happen_all : Handles → List Event → Option Handles
unfolding happens
happen_all s [] = some s
happen_all s (e ∷ events) = elim (happens s e) [ none ↦ none | some s' ↦ happen_all s' events ]
