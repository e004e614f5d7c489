-- ===== src/TcpHandle/Options/Examples.antt =====
-- Lua values that are a string or an integer.
use node_lua.Common.{
  ℕ, ◌<◌, ◌^◌, ◌≡◌, refl, List, [], ◌∷◌, Option, none, some, true, false, ◌⊎◌, inl, inr, arith,
}
use node_lua.Endian.{big}
use node_lua.Endian.RoundTrip.{two}
use node_lua.TcpHandle.{HeadOption, init_head_option}
use node_lua.TcpHandle.Options.{
  Fields, nil, given, raised, value, not_correct, not_match, frozen_table, set_rwopt, get_rwopt,
  check_option,
}
use node_lua.TcpHandle.Options.Sound.{IsSound, bare, headed, set_rwopt-IsSound}
use node_lua.TcpHandle.Options.Copy.{get_rwopt-set_rwopt}

abbrev LuaValue : Type 0
LuaValue = List ℕ ⊎ ℕ

abbrev to_string : LuaValue → Option (List ℕ)
to_string (inl s) = some s
to_string (inr n) = none

abbrev to_unsigned : LuaValue → Option ℕ
to_unsigned (inl s) = none
to_unsigned (inr n) = some n

abbrev push_string : List ℕ → LuaValue
push_string s = inl s

abbrev push_integer : ℕ → LuaValue
push_integer n = inr n

abbrev big_two : Fields LuaValue
big_two = record { head_endian = given (inl (66 ∷ [])); head_bytes = given (inr 2); head_max = nil }

abbrev blank : Fields LuaValue
blank = record { head_endian = nil; head_bytes = nil; head_max = nil }

abbrev two_bytes : HeadOption
two_bytes = record { frozen = false; endian = big; bytes = 2; max = 65535 }

-- The largest maximum is set for the width.
sets :
    set_rwopt to_string to_unsigned (big_two, blank) (init_head_option, init_head_option)
    ≡ value (two_bytes, init_head_option)
unfolding set_rwopt
sets = refl

wide :
    check_option to_string to_unsigned (record blank { head_bytes = given (inr 3) }) two_bytes
    ≡ raised not_correct
unfolding check_option
wide = refl

long :
    check_option to_string to_unsigned (record blank { head_bytes = given (inr 1) }) two_bytes
    ≡ raised not_match
unfolding check_option
long = refl

frozen :
    check_option to_string to_unsigned big_two (record two_bytes { frozen = true })
    ≡ raised frozen_table
unfolding check_option
frozen = refl

init-IsSound : IsSound init_head_option
init-IsSound = bare refl refl

two-IsSound : IsSound two_bytes
two-IsSound = headed two (omega arith) (omega arith) (omega arith)

set_rwopt-IsSound_example :
    (IsSound two_bytes × (false ≡ true → two_bytes ≡ init_head_option))
    × (IsSound init_head_option × (false ≡ true → init_head_option ≡ init_head_option))
set_rwopt-IsSound_example =
    set_rwopt-IsSound to_string to_unsigned big_two blank init_head_option init_head_option
      two_bytes init_head_option init-IsSound init-IsSound sets

string_back : (s : List ℕ) → to_string (push_string s) ≡ some s
string_back s = refl

integer_back : (n : ℕ) → n < 2 ^ 63 → to_unsigned (push_integer n) ≡ some n
integer_back n lt = refl

get_rwopt-set_rwopt_example :
    set_rwopt to_string to_unsigned
      (get_rwopt push_string push_integer (two_bytes, init_head_option))
      (init_head_option, two_bytes)
    ≡ value (two_bytes, init_head_option)
get_rwopt-set_rwopt_example =
    get_rwopt-set_rwopt to_string to_unsigned push_string push_integer string_back integer_back
      two_bytes init_head_option init_head_option two_bytes two-IsSound init-IsSound refl refl
