-- ===== src/TablePack/Numbers.antt =====
-- Each number is read back from the bytes that it was packed to.
use native.Mathlib.Nat.{mod-eq_of_lt}
use node_lua.Common.{
  ℕ, suc, ◌%◌, ◌^◌, ◌<◌, ◌≡◌, refl, ap, ◌∙◌, List, ◌∷◌, ◌++◌, append_assoc, Option, some, Bool,
  true, false, if◌then◌else◌, length, length-append, take-append, drop-append, arith, le→ltb,
}
use node_lua.Endian
use node_lua.Endian.{native_bytes, native_value, sign_extend}
use node_lua.Endian.Native.{length-native_bytes, native_value-native_bytes}
use node_lua.TablePack.{
  fits_in, sdscat, sdsread, after_read, Unpacked, value, integer, number, string, boolean,
  read_fixed, read_double, read_string, pack_integer, pack_double, pack_string, pack_boolean,
  boolean, unpack_lua_data,
}

module _ (env : Endian.Order) where
  -- What was appended is read, and the rest is left.
  pub sdsread-append :
      (n : ℕ) (xs rest : List ℕ) → length xs ≡ n → sdsread env n (xs ++ rest) ≡ some (xs, rest)
  sdsread-append n xs rest e =
      rw
        (
          le→ltb n (length (xs ++ rest)) (omega (arith, e, length-append xs rest)),
          take-append n xs rest e,
          drop-append n xs rest e,
        )
        refl

  pub sdsread-sdscat :
      (n v : ℕ) (rest : List ℕ)
      → sdsread env n (sdscat env n v ++ rest) ≡ some (sdscat env n v, rest)
  sdsread-sdscat n v rest = sdsread-append n (sdscat env n v) rest (length-native_bytes env n v)

  read_fixed-sdscat :
      (n v : ℕ) (rest : List ℕ)
      → read_fixed env n (sdscat env n v ++ rest)
        ≡ some (value (integer (sign_extend n (v % 256 ^ n))), rest)
  unfolding read_fixed
  read_fixed-sdscat n v rest =
      ap
        (λ r.
          after_read env r
            (λ low rest'. some (value (integer (sign_extend n (native_value env low))), rest')))
        (sdsread-sdscat n v rest)
      ∙ ap (λ k. some (value (integer (sign_extend n k)), rest)) (native_value-native_bytes env n v)

  read_double-pack :
      (v : ℕ) (rest : List ℕ)
      → v < 2 ^ 64
      → read_double env (sdscat env 8 v ++ rest) ≡ some (value (number v), rest)
  unfolding read_double
  read_double-pack v rest lt =
      ap (λ r. after_read env r (λ low rest'. some (value (number (native_value env low)), rest')))
        (sdsread-sdscat 8 v rest)
      ∙ ap (λ k. some (value (number k), rest))
          (native_value-native_bytes env 8 v ∙ mod-eq_of_lt lt)

  read_string-pack :
      (s rest : List ℕ)
      → length s < 2 ^ 64
      → read_string env ((sdscat env 8 (length s) ++ s) ++ rest) ≡ some (value (string s), rest)
  unfolding read_string
  read_string-pack s rest lt =
      ap (λ l. read_string env l) (append_assoc (sdscat env 8 (length s)) s rest)
      ∙ ap (λ r. after_read env r then_data) (sdsread-sdscat 8 (length s) (s ++ rest))
      ∙ ap (λ r. after_read env r (λ t rest'. some (value (string t), rest')))
          (ap (λ k. sdsread env k (s ++ rest))
              (native_value-native_bytes env 8 (length s) ∙ mod-eq_of_lt lt)
            ∙ sdsread-append (length s) s rest refl)
    where
      then_data : List ℕ → List ℕ → Option (Unpacked × List ℕ)
      then_data low rest' =
          after_read env (sdsread env (native_value env low) rest')
            (λ t rest''. some (value (string t), rest''))

  -- An integer that fits_in into `n` bytes is what its low bytes stand for.
  fits_in-sign_extend :
      (v : ℕ)
      → v < 2 ^ 64
      → (fits_in 1 v ≡ true → sign_extend 1 (v % 256 ^ 1) ≡ v)
        × (fits_in 2 v ≡ true → sign_extend 2 (v % 256 ^ 2) ≡ v)
        × (fits_in 4 v ≡ true → sign_extend 4 (v % 256 ^ 4) ≡ v)
        × (sign_extend 8 (v % 256 ^ 8) ≡ v)
  unfolding sign_extend
  fits_in-sign_extend v lt = (λ e. ground arith, λ e. ground arith, λ e. ground arith, ground arith)

  -- How an integer is packed: its tag, and its bytes.
  pub read_integer-pack :
      (fuel v : ℕ) (rest : List ℕ)
      → v < 2 ^ 64
      → unpack_lua_data env (suc fuel) (pack_integer env v ++ rest) ≡ some (value (integer v), rest)
  unfolding unpack_lua_data pack_integer
  read_integer-pack fuel v rest lt =
      by_width (fits_in 1 v) (fits_in 2 v) (fits_in 4 v) (fits_in-sign_extend v lt)
    where
      Read : List ℕ → Type 0
      Read bytes = unpack_lua_data env (suc fuel) (bytes ++ rest) ≡ some (value (integer v), rest)

      found :
          (k : ℕ)
          → k ≡ v
          → ◌≡◌ {A = Option (Unpacked × List ℕ)}
              (some (value (integer k), rest))
              (some (value (integer v), rest))
      found k e = ap (λ m. some (value (integer m), rest)) e

      by_width :
          (one two four : Bool)
          → (one ≡ true → sign_extend 1 (v % 256 ^ 1) ≡ v)
            × (two ≡ true → sign_extend 2 (v % 256 ^ 2) ≡ v)
            × (four ≡ true → sign_extend 4 (v % 256 ^ 4) ≡ v)
            × (sign_extend 8 (v % 256 ^ 8) ≡ v)
          → Read (
              if one
              then 0 ∷ sdscat env 1 v
              else if two
              then 1 ∷ sdscat env 2 v
              else if four
              then 2 ∷ sdscat env 4 v
              else 3 ∷ sdscat env 8 v)
      by_width true two four (e, _, _, _) =
          read_fixed-sdscat 1 v rest ∙ found (sign_extend 1 (v % 256 ^ 1)) (e refl)
      by_width false true four (_, e, _, _) =
          read_fixed-sdscat 2 v rest ∙ found (sign_extend 2 (v % 256 ^ 2)) (e refl)
      by_width false false true (_, _, e, _) =
          read_fixed-sdscat 4 v rest ∙ found (sign_extend 4 (v % 256 ^ 4)) (e refl)
      by_width false false false (_, _, _, e) =
          read_fixed-sdscat 8 v rest ∙ found (sign_extend 8 (v % 256 ^ 8)) e

  pub read_number-pack :
      (fuel v : ℕ) (rest : List ℕ)
      → v < 2 ^ 64
      → unpack_lua_data env (suc fuel) (pack_double env v ++ rest) ≡ some (value (number v), rest)
  unfolding unpack_lua_data
  read_number-pack fuel v rest lt = read_double-pack v rest lt

  pub read_text-pack :
      (fuel : ℕ) (s rest : List ℕ)
      → length s < 2 ^ 64
      → unpack_lua_data env (suc fuel) (pack_string env s ++ rest) ≡ some (value (string s), rest)
  unfolding unpack_lua_data
  read_text-pack fuel s rest lt = read_string-pack s rest lt

  pub read_truth-pack :
      (fuel : ℕ) (b : Bool) (rest : List ℕ)
      → unpack_lua_data env (suc fuel) (pack_boolean env b ++ rest) ≡ some (value (boolean b), rest)
  unfolding unpack_lua_data
  read_truth-pack fuel true rest = refl
  read_truth-pack fuel false rest = refl
