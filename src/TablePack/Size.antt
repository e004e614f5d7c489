-- ===== src/TablePack/Size.antt =====
-- How many bytes a value can take.
use node_lua.Common.{ℕ, ◌+◌, ◌≤◌, ◌≡◌, ap, List, [], ◌∷◌, ◌++◌, length, length-append, arith}
use node_lua.Endian
use node_lua.Endian.Native.{length-native_bytes}
use node_lua.TablePack.{
  Value, Entries, integer, number, string, boolean, table, other, empty, entry, packed,
  pack_integer, sdscat, pack_lua_data, pack_entries,
}
use node_lua.TablePack.RoundTrip.{packed_parts, packed_table, unpacked}

-- At most a tag and eight bytes for a number, the length and the bytes of a string, and two marks for a
-- table.
unfoldable mutual
  pub size_of : Value → ℕ
  size_of (integer v) = 9
  size_of (number v) = 9
  size_of (string s) = 9 + length s
  size_of (boolean b) = 2
  size_of (table entries) = 2 + sizes_of entries
  size_of other = 0

  pub sizes_of : Entries → ℕ
  sizes_of empty = 0
  sizes_of (entry k v entries) = size_of k + (size_of v + sizes_of entries)

module _ (env : Endian.Order) where
  length-pack_integer : (v : ℕ) → length (pack_integer env v) ≤ 9
  unfolding pack_integer
  length-pack_integer v = ground (
    arith,
    length-native_bytes env 1 v,
    length-native_bytes env 2 v,
    length-native_bytes env 4 v,
    length-native_bytes env 8 v,
  )

  mutual
    unfolding pack_lua_data pack_entries size_of sizes_of

    pub length-packed :
        (v : Value) (depth : ℕ) (bytes : List ℕ)
        → pack_lua_data env depth v ≡ packed bytes
        → length bytes ≤ size_of v
    length-packed (integer v) depth bytes run =
        omega (arith, ap length (unpacked run), length-pack_integer v)
    length-packed (number v) depth bytes run =
        omega (arith, ap length (unpacked run), length-native_bytes env 8 v)
    length-packed (string s) depth bytes run = omega (
      arith,
      ap length (unpacked run),
      length-append (sdscat env 8 (length s)) s,
      length-native_bytes env 8 (length s),
    )
    length-packed (boolean b) depth bytes run = omega (arith, ap length (unpacked run))
    length-packed (table entries) depth bytes run =
        packed_table env entries depth bytes run (λ part inner whole. omega (
          arith,
          ap length whole,
          length-append part (8 ∷ []),
          length-packed_entries entries (depth + 1) part inner,
        ))
    length-packed other depth bytes run = absurd (cc)

    length-packed_entries :
        (entries : Entries) (depth : ℕ) (bytes : List ℕ)
        → pack_entries env depth entries ≡ packed bytes
        → length bytes ≤ sizes_of entries
    length-packed_entries empty depth bytes run = omega (arith, ap length (unpacked run))
    length-packed_entries (entry k v entries) depth bytes run =
        packed_parts (pack_lua_data env depth k) _ bytes run (λ ks key run'.
          packed_parts (pack_lua_data env depth v) _ bytes run' (λ vs val run''.
            packed_parts (pack_entries env depth entries) _ bytes run'' (λ others inner whole.
              omega (
                arith,
                ap length (unpacked whole),
                length-append ks (vs ++ others),
                length-append vs others,
                length-packed k depth ks key,
                length-packed v depth vs val,
                length-packed_entries entries depth others inner,
              ))))
