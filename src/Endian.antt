-- ===== src/Endian.antt =====
-- src/endian_conv.h and src/endian_conv.cpp: integers of 1, 2, 4 or 8 bytes in memory, in the order
-- of the machine or in the other one. `env` is the machine's own order (`ENV_ENDIAN_VAL`); memory
-- is a list of bytes, each below 256; an integer is the number of its bit pattern, and `char` is
-- signed, as the compilers of the supported platforms have it. Not modelled is a machine of 64 bits
-- with the highest byte first, where `ENV_ENDIAN_VAL` is neither of the two.
pub mod RoundTrip
pub mod Native
mod Examples
use node_lua.Common.{
  ℕ, zero, suc, ◌+◌, ◌-◌, ◌*◌, ◌/◌, ◌%◌, ◌^◌, List, [], ◌∷◌, ◌++◌, Bool, true, false, ltb, ◌==◌,
  if◌then◌else◌, get_or, take,
}

-- LITTLE_ENDIAN_VAL and BIG_ENDIAN_VAL
pub data Order : Type 0 where
  little big : Order

-- `src_endian == ENV_ENDIAN_VAL`
pub same_order : Order → Order → Bool
same_order little little = true
same_order big big = true
same_order _ _ = false

-- The low `n` bytes of a number, lowest first, and back.
pub low_first : ℕ → ℕ → List ℕ
low_first zero v = []
low_first (suc n) v = v % 256 ∷ low_first n (v / 256)

unfoldable pub value_low : List ℕ → ℕ
value_low [] = 0
value_low (b ∷ bs) = b + 256 * value_low bs

abbrev backwards : List ℕ → List ℕ
backwards [] = []
backwards (b ∷ bs) = backwards bs ++ (b ∷ [])

-- The bytes of an integer in the memory of the machine, and the integer of such bytes.
unfoldable pub native_bytes : Order → ℕ → ℕ → List ℕ
unfolding low_first
native_bytes little n v = low_first n v
native_bytes big n v = backwards (low_first n v)

unfoldable pub native_value : Order → List ℕ → ℕ
native_value little bytes = value_low bytes
native_value big bytes = value_low (backwards bytes)

-- `src[i]`
abbrev byte : List ℕ → ℕ → ℕ
byte src i = get_or src i 0

-- An integer of `n` bytes as an `int64_t`.
unfoldable pub sign_extend : ℕ → ℕ → ℕ
sign_extend n v = if ltb v (2 ^ (8 * n - 1)) then v else v + 2 ^ 64 - 2 ^ (8 * n)

module _ (env : Order) where
  pub endian_to_int16 : List ℕ → Order → ℕ
  unfolding same_order native_value
  endian_to_int16 src src_endian =
      if same_order src_endian env
      then native_value env (take 2 src)
      else native_value env (byte src 1 ∷ byte src 0 ∷ [])

  pub endian_to_int32 : List ℕ → Order → ℕ
  unfolding same_order native_value
  endian_to_int32 src src_endian =
      if same_order src_endian env
      then native_value env (take 4 src)
      else native_value env (byte src 3 ∷ byte src 2 ∷ byte src 1 ∷ byte src 0 ∷ [])

  pub endian_to_int64 : List ℕ → Order → ℕ
  unfolding same_order native_value
  endian_to_int64 src src_endian =
      if same_order src_endian env
      then native_value env (take 8 src)
      else native_value env (
          byte src 7
          ∷ byte src 6
          ∷ byte src 5
          ∷ byte src 4
          ∷ byte src 3
          ∷ byte src 2
          ∷ byte src 1
          ∷ byte src 0
          ∷ [])

  -- The bytes are read as signed integers of their width.
  unfoldable pub endian_to_integer : List ℕ → ℕ → Order → ℕ
  unfolding endian_to_int16 endian_to_int32 endian_to_int64
  endian_to_integer src src_bytes src_endian =
      if src_bytes == 1
      then sign_extend 1 (byte src 0)
      else if src_bytes == 2
      then sign_extend 2 (endian_to_int16 src src_endian)
      else if src_bytes == 4
      then sign_extend 4 (endian_to_int32 src src_endian)
      else if src_bytes == 8
      then endian_to_int64 src src_endian
      else 0

  -- What is written at `dest`.
  pub endian_from_int16 : ℕ → Order → List ℕ
  unfolding same_order native_bytes
  endian_from_int16 src dest_endian =
      let p = native_bytes env 2 src in
      if same_order dest_endian env then p else byte p 1 ∷ byte p 0 ∷ []

  pub endian_from_int32 : ℕ → Order → List ℕ
  unfolding same_order native_bytes
  endian_from_int32 src dest_endian =
      let p = native_bytes env 4 src in
      if same_order dest_endian env then p else byte p 3 ∷ byte p 2 ∷ byte p 1 ∷ byte p 0 ∷ []

  pub endian_from_int64 : ℕ → Order → List ℕ
  unfolding same_order native_bytes
  endian_from_int64 src dest_endian =
      let p = native_bytes env 8 src in
      if same_order dest_endian env
      then p
      else byte p 7
        ∷ byte p 6
        ∷ byte p 5
        ∷ byte p 4
        ∷ byte p 3
        ∷ byte p 2
        ∷ byte p 1
        ∷ byte p 0
        ∷ []

  -- The conversions to `int16_t` and `int32_t` on the way keep the low bytes, which is all that
  -- is written.
  pub endian_from_integer : ℕ → ℕ → Order → List ℕ
  unfolding endian_from_int16 endian_from_int32 endian_from_int64
  endian_from_integer src dest_bytes dest_endian =
      if dest_bytes == 1
      then src % 256 ∷ []
      else if dest_bytes == 2
      then endian_from_int16 (src % 2 ^ 16) dest_endian
      else if dest_bytes == 4
      then endian_from_int32 (src % 2 ^ 32) dest_endian
      else if dest_bytes == 8
      then endian_from_int64 src dest_endian
      else []
