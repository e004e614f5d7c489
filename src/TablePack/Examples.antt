-- ===== src/TablePack/Examples.antt =====
-- Tables on which the theorems are applied, and runs.
use node_lua.Common.{
  ℕ, leb, ◌&&◌, ◌<◌, ◌-◌, ◌^◌, List, [], ◌∷◌, ◌≡◌, refl, none, some, true, length, arith,
}
use node_lua.Endian.{little, big, native_bytes, native_value, sign_extend, value_low}
use node_lua.TablePack.{
  Entries, integer, string, boolean, table, empty, entry, packed, other, max_depth, ltpack,
  ltunpack,
}
use node_lua.TablePack.Size.{size_of}
use node_lua.TablePack.RoundTrip.{AreWords}
use node_lua.TablePack.Errors.{
  nesting, is_plain, is_packed, is_table, ltunpack-ltpack, ltpack-succeeds,
}

-- { [1] = "ab", [-2] = { [true] = 300 } }
abbrev sample : Entries
sample =
    entry (integer 1) (string (97 ∷ 98 ∷ []))
      (entry (integer (2 ^ 64 - 2)) (table (entry (boolean true) (integer 300) empty)) empty)

ltunpack-ltpack_example :
    (bytes : List ℕ) × (ltpack little (table sample) ≡ packed bytes)
    × (length bytes < 2 ^ 31)
    × (ltunpack little bytes ≡ some (table sample))
unfolding AreWords nesting is_plain size_of
ltunpack-ltpack_example =
    ltunpack-ltpack little sample (omega arith) refl (word1, two, (word2, (tt, word3, tt), tt))
      (omega arith)
  where
    two : 2 < 2 ^ 64
    two = omega arith

    word1 : 1 < 2 ^ 64
    word1 = omega arith

    word2 : 2 ^ 64 - 2 < 2 ^ 64
    word2 = omega arith

    word3 : 300 < 2 ^ 64
    word3 = omega arith

abbrev sample_bytes : List ℕ
sample_bytes =
    7 ∷ 0 ∷ 1 ∷ 5 ∷ 2 ∷ 0 ∷ 0 ∷ 0 ∷ 0 ∷ 0 ∷ 0 ∷ 0 ∷ 97 ∷ 98 ∷ 0 ∷ 254 ∷ 7 ∷ 6 ∷ 1 ∷ 1 ∷ 44 ∷ 1 ∷ 8
    ∷ 8 ∷ []

ltpack_run : ltpack little (table sample) ≡ packed sample_bytes
unfolding ltpack native_bytes
ltpack_run = refl

ltunpack_run : ltunpack little sample_bytes ≡ some (table sample)
unfolding ltunpack native_value sign_extend value_low
ltunpack_run = refl

-- Bytes that end too early are no value.
ltunpack-short_run : ltunpack little (7 ∷ 1 ∷ 5 ∷ []) ≡ none
unfolding ltunpack native_value sign_extend value_low
ltunpack-short_run = refl

-- Functions cannot be packed.
ltpack-succeeds_example : is_packed (ltpack big (table (entry (integer 1) other empty))) ≡ (
    is_table (table (entry (integer 1) other empty))
    && (leb (nesting (table (entry (integer 1) other empty))) max_depth
        && is_plain (table (entry (integer 1) other empty))))
ltpack-succeeds_example = ltpack-succeeds big (table (entry (integer 1) other empty))
