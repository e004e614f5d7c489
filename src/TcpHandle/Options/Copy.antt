-- ===== src/TcpHandle/Options/Copy.antt =====
-- Options that are read from one socket and set on another.
use native.Mathlib.Nat.{mod-eq_of_lt}
use node_lua.Common.{
  ℕ, ◌-◌, ◌*◌, ◌%◌, ◌^◌, ◌<◌, ◌≤◌, ◌≡◌, refl, sym, ap, ap₂, subst, ◌∙◌, List, [], ◌∷◌, Option, some,
  Bool, true, false, ◌&&◌, ltb, if◌then◌else◌, arith, le→ltb, ne→==,
}
use node_lua.Buffer.{max_capacity}
use node_lua.Endian.{Order, little, big}
use node_lua.Endian.RoundTrip.{IsWidth, one, two, four, eight}
use node_lua.TcpHandle.{HeadOption}
use node_lua.TcpHandle.Options.{
  value, and_then, given, assign, endian_of, endian_char, head_width, bytes_max,
  opt_check_bytes_max, bind, opt_check_endian, opt_check_bytes, opt_check_max, check_option,
  set_rwopt, fields_of, get_rwopt,
}
use node_lua.TcpHandle.Options.Sound.{IsSound, bare, headed}

module _ {V : Type 0} (to_string : V → Option (List ℕ)) (to_unsigned : V → Option ℕ)
    (push_string : List ℕ → V) (push_integer : ℕ → V)
    (string_back : (s : List ℕ) → to_string (push_string s) ≡ some s)
    (integer_back : (n : ℕ) → n < 2 ^ 63 → to_unsigned (push_integer n) ≡ some n) where
  check_bytes_back :
      (n : ℕ) (old : ℕ)
      → n < 2 ^ 32
      → head_width n ≡ some n
      → opt_check_bytes to_string to_unsigned (given (push_integer n)) old false ≡ value n
  unfolding opt_check_bytes assign bind
  check_bytes_back n old lt known =
      rw (integer_back n (omega (arith, lt)), mod-eq_of_lt lt, known) refl

  check_max_back :
      (n : ℕ) (old : ℕ)
      → n < 2 ^ 32
      → opt_check_max to_string to_unsigned (given (push_integer n)) old false ≡ value n
  unfolding opt_check_max assign bind
  check_max_back n old lt = rw (integer_back n (omega (arith, lt)), mod-eq_of_lt lt) refl

  check_endian_back :
      (e old : Order)
      → opt_check_endian to_string to_unsigned (given (push_string (endian_char e))) old false
        ≡ value e
  unfolding opt_check_endian assign bind endian_of endian_char
  check_endian_back little old = rw (string_back (76 ∷ [])) refl
  check_endian_back big old = rw (string_back (66 ∷ [])) refl

  -- The maximum of a sound option goes with its width.
  record IsFit (o : HeadOption) : Type 0 where
    width : head_width o.bytes ≡ some o.bytes
    narrow : o.bytes < 2 ^ 32
    small : o.max < 2 ^ 32
    fit : opt_check_bytes_max o.bytes o.max ≡ value o.max

  fits_max :
      (bytes max : ℕ) → max ≤ bytes_max bytes → 0 < max → opt_check_bytes_max bytes max ≡ value max
  unfolding opt_check_bytes_max
  fits_max bytes max le pos =
      rw (le→ltb max (bytes_max bytes) le, ne→== max 0 (omega (arith, pos)))
        (ap value (keeps (ltb 0 bytes)))
    where
      keeps : (b : Bool) → (if b && false then bytes_max bytes else max) ≡ max
      keeps true = refl
      keeps false = refl

  bytes_max_bounds : (n : ℕ) → bytes_max n < 2 ^ 32
  bytes_max_bounds n = capped ((2 ^ (n * 8) - 1) % 2 ^ 32) (omega arith)
    where
      capped : (a : ℕ) → a < 2 ^ 32 → (if ltb max_capacity a then max_capacity else a) < 2 ^ 32
      capped a lt = ground arith

  IsSound-IsFit : (o : HeadOption) → IsSound o → IsFit o
  unfolding opt_check_bytes_max
  IsSound-IsFit o (bare e e') = record {
    width = subst (λ n. head_width n ≡ some n) (sym e) refl;
    narrow = omega (arith, e);
    small = omega (arith, e');
    fit = ap₂ opt_check_bytes_max e e' ∙ ap value (sym e');
  }
  IsSound-IsFit o (headed w le pos max) = record {
    width = known w le;
    narrow = omega (arith, le);
    small = omega (arith, max, bytes_max_bounds o.bytes);
    fit = fits_max o.bytes o.max max pos;
  }
    where
      known : {n : ℕ} → IsWidth n → n ≤ 4 → head_width n ≡ some n
      known one le' = refl
      known two le' = refl
      known four le' = refl
      known eight le' = absurd (omega (arith, le'))

  -- The fields of one option, on an option that is not frozen.
  check_back :
      (o old : HeadOption)
      → IsFit o
      → old.frozen ≡ false
      → check_option to_string to_unsigned (fields_of push_string push_integer o) old
        ≡ value (record o { frozen = false })
  unfolding check_option fields_of and_then
  check_back o old v free =
      rw
        (
          free,
          check_endian_back o.endian old.endian,
          check_bytes_back o.bytes old.bytes v.narrow v.width,
          check_max_back o.max old.max v.small,
          v.fit,
        )
        refl

  -- The table that `get_rwopt` makes of the sound options of one socket, given to `set_rwopt` on
  -- another one whose options are not frozen, raises no error, and gives it the widths, orders and
  -- maxima of the first. Lua is taken to read back the strings, and the integers below
  -- 2^63, that it was given.
  pub get_rwopt-set_rwopt :
      (r w r' w' : HeadOption)
      → IsSound r
      → IsSound w
      → r'.frozen ≡ false
      → w'.frozen ≡ false
      → set_rwopt to_string to_unsigned (get_rwopt push_string push_integer (r, w)) (r', w')
        ≡ value (record r { frozen = false }, record w { frozen = false })
  unfolding set_rwopt get_rwopt and_then
  get_rwopt-set_rwopt r w r' w' vr vw free free' =
      rw (check_back r r' (IsSound-IsFit r vr) free, check_back w w' (IsSound-IsFit w vw) free')
        refl
