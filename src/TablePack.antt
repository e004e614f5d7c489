-- ===== src/TablePack.antt =====
-- src/ltpack.cpp: Lua tables as bytes. An integer is the bit pattern of a 64-bit integer, and so is a
-- `number`, of its double. A table is the pairs that `lua_next` goes through, in that order, and when
-- it is read back those that `lua_rawset` gets. `size_t` has 8 bytes. Reading behind the end of the
-- bytes is a failed assert, the result `none`.
pub mod Numbers
pub mod RoundTrip
pub mod Size
pub mod Errors
mod Examples
use node_lua.Common.{
  ℕ, zero, suc, ◌+◌, ◌-◌, ◌*◌, ◌^◌, List, [], ◌∷◌, ◌++◌, Option, none, some, Bool, true, false, not,
  ◌||◌, ltb, leb, ◌==◌, if◌then◌else◌, length, take, drop,
}
use node_lua.Endian
use node_lua.Endian.{native_bytes, native_value, sign_extend}

mutual
  pub data Value : Type 0 where
    integer number : ℕ → Value
    string : List ℕ → Value
    boolean : Bool → Value
    table : Entries → Value
    -- A function, a coroutine or a userdata, which cannot be packed.
    other : Value

  pub data Entries : Type 0 where
    empty : Entries
    entry : Value → Value → Entries → Entries

-- The errors that are raised, and that of `ltpack` for what is no table.
pub data PackError : Type 0 where
  too_deep cannot_pack table_expected : PackError

pub data PackResult : Type 0 where
  failed : PackError → PackResult
  packed : List ℕ → PackResult

abbrev pub and_then : PackResult → (List ℕ → PackResult) → PackResult
and_then (failed e) k = failed e
and_then (packed bytes) k = k bytes

-- MAX_DEPTH
abbrev pub max_depth : ℕ
max_depth = 256

-- TYPE_INT8 and the others, in their order.
pub data Tag : Type 0 where
  fixed : ℕ → Tag
  double text truth table_beg table_end unknown : Tag

abbrev pub tag_of : ℕ → Tag
tag_of zero = fixed 1
tag_of (suc zero) = fixed 2
tag_of (suc (suc zero)) = fixed 4
tag_of (suc (suc (suc zero))) = fixed 8
tag_of (suc (suc (suc (suc zero)))) = double
tag_of (suc (suc (suc (suc (suc zero))))) = text
tag_of (suc (suc (suc (suc (suc (suc zero)))))) = truth
tag_of (suc (suc (suc (suc (suc (suc (suc zero))))))) = table_beg
tag_of (suc (suc (suc (suc (suc (suc (suc (suc zero)))))))) = table_end
tag_of _ = unknown

-- Whether a 64-bit integer has the same value in `n` bytes.
abbrev pub fits_in : ℕ → ℕ → Bool
fits_in n v = ltb v (2 ^ (8 * n - 1)) || leb (2 ^ 64 - 2 ^ (8 * n - 1)) v

-- What the reader has pushed: a value, nothing at the end of a table, or nothing for a type it does
-- not know.
pub data Unpacked : Type 0 where
  value : Value → Unpacked
  nothing unknown_type : Unpacked

module _ (env : Endian.Order) where
  -- What `sdscat` appends for an integer of `n` bytes. The length of an sds is an `int`: the model is that of
  -- the code as long as all the bytes are fewer than 2^31.
  abbrev pub sdscat : ℕ → ℕ → List ℕ
  sdscat n v = native_bytes env n v

  pub pack_integer : ℕ → List ℕ
  pack_integer v =
      if fits_in 1 v
      then 0 ∷ sdscat 1 v
      else if fits_in 2 v
      then 1 ∷ sdscat 2 v
      else if fits_in 4 v
      then 2 ∷ sdscat 4 v
      else 3 ∷ sdscat 8 v

  abbrev pub pack_double : ℕ → List ℕ
  pack_double v = 4 ∷ sdscat 8 v

  abbrev pub pack_boolean : Bool → List ℕ
  pack_boolean b = 6 ∷ (if b then 1 else 0) ∷ []

  abbrev pub pack_string : List ℕ → List ℕ
  pack_string s = 5 ∷ (sdscat 8 (length s) ++ s)

  -- What is appended, or the error; the bytes before an error are given up by the caller.
  unfoldable mutual
    unfolding pack_integer

    pub pack_lua_data : ℕ → Value → PackResult
    pack_lua_data depth (integer v) = packed (pack_integer v)
    pack_lua_data depth (number v) = packed (pack_double v)
    pack_lua_data depth (string s) = packed (pack_string s)
    pack_lua_data depth (boolean b) = packed (pack_boolean b)
    pack_lua_data depth (table entries) =
        if ltb max_depth (depth + 1)
        then failed too_deep
        else and_then (pack_entries (depth + 1) entries) (λ bytes. packed (7 ∷ (bytes ++ (8 ∷ []))))
    pack_lua_data depth other = failed cannot_pack

    -- The loop of pack_table.
    pub pack_entries : ℕ → Entries → PackResult
    pack_entries depth empty = packed []
    pack_entries depth (entry k v entries) = and_then (pack_lua_data depth k) (λ ks.
        and_then (pack_lua_data depth v)
          (λ vs. and_then (pack_entries depth entries) (λ rest. packed (ks ++ (vs ++ rest)))))

  -- `sdsread` of `n` bytes: these bytes and the rest.
  abbrev pub sdsread : ℕ → List ℕ → Option (List ℕ × List ℕ)
  sdsread n bytes = if ltb (length bytes) n then none else some (take n bytes, drop n bytes)

  -- A read of some bytes, and what is made of them and the rest.
  abbrev pub after_read {ℓ} :
      {A : Type ℓ} → Option (List ℕ × List ℕ) → (List ℕ → List ℕ → Option A) → Option A
  after_read none k = none
  after_read (some (bytes, rest)) k = k bytes rest

  pub read_fixed : ℕ → List ℕ → Option (Unpacked × List ℕ)
  read_fixed n bytes =
      after_read (sdsread n bytes)
        (λ low rest. some (value (integer (sign_extend n (native_value env low))), rest))

  pub read_double : List ℕ → Option (Unpacked × List ℕ)
  read_double bytes =
      after_read (sdsread 8 bytes) (λ low rest. some (value (number (native_value env low)), rest))

  pub read_boolean : List ℕ → Option (Unpacked × List ℕ)
  read_boolean [] = none
  read_boolean (b ∷ rest) = some (value (boolean (not (b == 0))), rest)

  pub read_string : List ℕ → Option (Unpacked × List ℕ)
  read_string bytes = after_read (sdsread 8 bytes) (λ low rest.
      after_read (sdsread (native_value env low) rest) (λ s rest'. some (value (string s), rest')))

  -- Every call reads a byte, so the bytes are fuel enough. A key or a value that was not pushed makes
  -- `lua_rawset` fail.
  unfoldable mutual
    unfolding read_fixed read_double read_boolean read_string

    pub unpack_lua_data : ℕ → List ℕ → Option (Unpacked × List ℕ)
    unpack_lua_data zero bytes = none
    unpack_lua_data (suc fuel) [] = none
    unpack_lua_data (suc fuel) (t ∷ bytes) = elim (tag_of t) [
      | fixed n ↦ read_fixed n bytes
      | double ↦ read_double bytes
      | text ↦ read_string bytes
      | truth ↦ read_boolean bytes
      | table_beg ↦ elim (unpack_entries fuel bytes) [
        | none ↦ none
        | some (entries, rest) ↦ some (value (table entries), rest)
      ]
      | table_end ↦ some (nothing, bytes)
      | unknown ↦ some (unknown_type, bytes)
    ]

    -- The loop for a table.
    pub unpack_entries : ℕ → List ℕ → Option (Entries × List ℕ)
    unpack_entries zero bytes = none
    unpack_entries (suc fuel) bytes = elim (unpack_lua_data fuel bytes) [
      | none ↦ none
      | some (nothing, rest) ↦ some (empty, rest)
      | some (unknown_type, rest) ↦ none
      | some (value k, rest) ↦ elim (unpack_lua_data fuel rest) [
        | none ↦ none
        | some (nothing, rest') ↦ none
        | some (unknown_type, rest') ↦ none
        | some (value v, rest') ↦ elim (unpack_entries fuel rest') [
          | none ↦ none
          | some (entries, rest'') ↦ some (entry k v entries, rest'')
        ]
      ]
    ]

  -- ltpack, with its error.
  pub ltpack : Value → PackResult
  unfolding pack_lua_data
  ltpack (table entries) = pack_lua_data 0 (table entries)
  ltpack _ = failed table_expected

  -- ltunpack: the value that it returns.
  pub ltunpack : List ℕ → Option Value
  unfolding unpack_lua_data
  ltunpack bytes = elim (unpack_lua_data (suc (length bytes)) bytes) [
    | none ↦ none
    | some (value v, rest) ↦ some v
    | some (nothing, rest) ↦ none
    | some (unknown_type, rest) ↦ none
  ]
