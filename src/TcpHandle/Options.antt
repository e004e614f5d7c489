-- ===== src/TcpHandle/Options.antt =====
-- src/lua_tcp_handle.cpp, `set_rwopt` and `get_rwopt`: the length headers of a socket as the fields of
-- a Lua table. A value that is not nil, and what Lua's `lua_tolstring`, `lua_tounsignedx`,
-- `lua_pushlstring` and `lua_pushinteger` make of it, are parameters. `raised` stands for `luaL_error`,
-- which leaves `set_rwopt` before anything is stored.
pub mod Sound
pub mod Copy
mod Examples
use node_lua.Common.{
  ℕ, zero, suc, ◌+◌, ◌-◌, ◌*◌, ◌%◌, ◌^◌, List, [], ◌∷◌, Option, none, some, Bool, true, false, not,
  ◌&&◌, ◌||◌, ltb, leb, ◌==◌, if◌then◌else◌,
}
use node_lua.Buffer.{max_capacity}
use node_lua.Endian.{Order, little, big}
use node_lua.TcpHandle.{HeadOption}

pub data OptError : Type 0 where
  not_correct frozen_table not_match : OptError

pub data Checked {ℓ} (A : Type ℓ) : Type ℓ where
  raised : OptError → Checked A
  value : A → Checked A

pub and_then {ℓ κ} : {A : Type ℓ} {B : Type κ} → Checked A → (A → Checked B) → Checked B
and_then (raised e) k = raised e
and_then (value a) k = k a

-- A field of the table.
pub data Field (V : Type 0) : Type 0 where
  nil : Field V
  given : V → Field V

-- The fields of one header in the table.
pub record Fields (V : Type 0) : Type 0 where
  pub head_endian : Field V
  pub head_bytes : Field V
  pub head_max : Field V

-- LITTLE_ENDIAN_VAL is 'L' and BIG_ENDIAN_VAL is 'B'.
pub endian_of : List ℕ → Option Order
endian_of (c ∷ []) = if c == 76 then some little else if c == 66 then some big else none
endian_of _ = none

pub endian_char : Order → List ℕ
endian_char little = 76 ∷ []
endian_char big = 66 ∷ []

-- The end of each check: a wrong value, then a frozen table, are errors.
pub assign {ℓ} : {A : Type ℓ} → Option A → Bool → Checked A
assign none frozen = raised not_correct
assign (some a) frozen = if frozen then raised frozen_table else value a

abbrev pub head_width : ℕ → Option ℕ
head_width n = if (n == 0) || ((n == 1) || ((n == 2) || (n == 4))) then some n else none

-- The largest length that `opt_check_bytes_max` lets a header of `bytes` bytes have.
abbrev pub bytes_max : ℕ → ℕ
bytes_max bytes =
    let all = (2 ^ (bytes * 8) - 1) % 2 ^ 32 in if ltb max_capacity all then max_capacity else all

-- The maximum that goes with a width, 0 standing for the largest.
pub opt_check_bytes_max : ℕ → ℕ → Checked ℕ
opt_check_bytes_max bytes max =
    if ltb (bytes_max bytes) max
    then raised not_match
    else value (if ltb 0 bytes && (max == 0) then bytes_max bytes else max)

module _ {V : Type 0} (to_string : V → Option (List ℕ)) (to_unsigned : V → Option ℕ) where
  pub bind {ℓ κ} : {A : Type ℓ} {B : Type κ} → Option A → (A → Option B) → Option B
  bind none f = none
  bind (some a) f = f a

  pub opt_check_endian : Field V → Order → Bool → Checked Order
  unfolding assign endian_of bind
  opt_check_endian nil endian frozen = value endian
  opt_check_endian (given v) endian frozen = assign (bind (to_string v) endian_of) frozen

  pub opt_check_bytes : Field V → ℕ → Bool → Checked ℕ
  unfolding assign bind
  opt_check_bytes nil bytes frozen = value bytes
  opt_check_bytes (given v) bytes frozen =
      assign (bind (to_unsigned v) (λ n. head_width (n % 2 ^ 32))) frozen

  pub opt_check_max : Field V → ℕ → Bool → Checked ℕ
  unfolding assign bind
  opt_check_max nil max frozen = value max
  opt_check_max (given v) max frozen = assign (bind (to_unsigned v) (λ n. some (n % 2 ^ 32))) frozen

  -- The four checks of one header, on a copy of its option.
  pub check_option : Fields V → HeadOption → Checked HeadOption
  unfolding and_then opt_check_endian opt_check_bytes opt_check_max opt_check_bytes_max
  check_option t option =
      and_then (opt_check_endian t.head_endian option.endian option.frozen) (λ endian.
        and_then (opt_check_bytes t.head_bytes option.bytes option.frozen) (λ bytes.
          and_then (opt_check_max t.head_max option.max option.frozen) (λ max.
            and_then (opt_check_bytes_max bytes max)
              (λ max'. value (record option { endian = endian; bytes = bytes; max = max' })))))

  abbrev pub store : HeadOption → HeadOption → HeadOption
  store option checked = if not checked.frozen then checked else option

  -- The read and the write option of an open socket.
  pub set_rwopt : Fields V × Fields V → HeadOption × HeadOption → Checked (HeadOption × HeadOption)
  unfolding and_then check_option
  set_rwopt (read_fields, write_fields) (read_option, write_option) =
      and_then (check_option read_fields read_option) (λ read_checked.
        and_then (check_option write_fields write_option) (λ write_checked.
          value (store read_option read_checked, store write_option write_checked)))

module _ {V : Type 0} (push_string : List ℕ → V) (push_integer : ℕ → V) where
  pub fields_of : HeadOption → Fields V
  unfolding endian_char
  fields_of option = record {
    head_endian = given (push_string (endian_char option.endian));
    head_bytes = given (push_integer option.bytes);
    head_max = given (push_integer option.max);
  }

  pub get_rwopt : HeadOption × HeadOption → Fields V × Fields V
  unfolding fields_of
  get_rwopt (read_option, write_option) = (fields_of read_option, fields_of write_option)
