-- ===== src/TablePack/Errors.antt =====
-- Which tables can be packed, and that they come back.
use node_lua.Common.{◌^◌, ◌<◌}
use node_lua.Common.{
  ℕ, suc, ◌+◌, ◌≤◌, ◌≡◌, refl, ap, ap₂, sym, ◌∙◌, List, [], ◌++◌, append-nil, some, Bool, true,
  false, ◌&&◌, ltb, leb, if◌then◌else◌, length, arith, Bool-cases, le→leb, inl, inr,
}
use node_lua.Endian
use node_lua.TablePack.{
  Value, Entries, integer, number, string, boolean, table, other, empty, entry, value, PackResult,
  failed, packed, and_then, max_depth, pack_lua_data, pack_entries, unpack_lua_data, ltpack,
  ltunpack,
}
use node_lua.TablePack.Size.{size_of, length-packed}
use node_lua.TablePack.RoundTrip.{IsWord, AreWords, unpack-pack}

abbrev pub larger : ℕ → ℕ → ℕ
larger m n = if ltb m n then n else m

-- How deep tables stand in tables, and whether a value has numbers, strings, truth values and tables
-- only.
unfoldable mutual
  pub nesting : Value → ℕ
  nesting (integer v) = 0
  nesting (number v) = 0
  nesting (string s) = 0
  nesting (boolean b) = 0
  nesting (table entries) = suc (deepest entries)
  nesting other = 0

  pub deepest : Entries → ℕ
  deepest empty = 0
  deepest (entry k v entries) = larger (nesting k) (larger (nesting v) (deepest entries))

unfoldable mutual
  pub is_plain : Value → Bool
  is_plain (integer v) = true
  is_plain (number v) = true
  is_plain (string s) = true
  is_plain (boolean b) = true
  is_plain (table entries) = are_plain entries
  is_plain other = false

  pub are_plain : Entries → Bool
  are_plain empty = true
  are_plain (entry k v entries) = is_plain k && (is_plain v && are_plain entries)

abbrev pub is_packed : PackResult → Bool
is_packed (failed e) = false
is_packed (packed bytes) = true

is_packed-and_then :
    (r : PackResult) (k : List ℕ → PackResult) (b : Bool)
    → ((part : List ℕ) → is_packed (k part) ≡ b)
    → is_packed (and_then r k) ≡ (is_packed r && b)
is_packed-and_then (failed e) k b each = refl
is_packed-and_then (packed part) k b each = each part

and_true : (b : Bool) → (b && true) ≡ b
and_true true = refl
and_true false = refl

leb-larger :
    (d a b : ℕ) → leb (d + larger a b) max_depth ≡ (leb (d + a) max_depth && leb (d + b) max_depth)
leb-larger d a b = ground arith

and_and : (x p y q : Bool) → ((x && p) && (y && q)) ≡ ((x && y) && (p && q))
and_and true true y q = refl
and_and true false true q = refl
and_and true false false q = refl
and_and false p y q = refl

-- A limit on the larger one is a limit on both.
larger_both :
    (d a b c : ℕ) (p q r : Bool)
    → ((leb (d + a) max_depth && p)
        && ((leb (d + b) max_depth && q) && (leb (d + c) max_depth && r)))
      ≡ (leb (d + larger a (larger b c)) max_depth && (p && (q && r)))
larger_both d a b c p q r =
    rw (leb-larger d a (larger b c), leb-larger d b c)
      (ap (λ t. (leb (d + a) max_depth && p) && t)
          (and_and (leb (d + b) max_depth) q (leb (d + c) max_depth) r)
        ∙ and_and (leb (d + a) max_depth) p (leb (d + b) max_depth && leb (d + c) max_depth)
            (q && r))

zero_add : (n : ℕ) → 0 + n ≡ n
zero_add n = omega arith

room : (depth : ℕ) → ltb max_depth (depth + 1) ≡ false → depth + 1 ≤ max_depth
room depth fine = ground arith

abbrev pub is_table : Value → Bool
is_table (table entries) = true
is_table _ = false

packed_bytes : (r : PackResult) → is_packed r ≡ true → (bytes : List ℕ) × r ≡ packed bytes
packed_bytes (packed bytes) e = (bytes, refl)
packed_bytes (failed err) e = absurd (cc)

module _ (env : Endian.Order) where
  mutual
    unfolding pack_lua_data pack_entries nesting deepest is_plain are_plain

    is_packed-value :
        (v : Value) (depth : ℕ)
        → depth ≤ max_depth
        → is_packed (pack_lua_data env depth v) ≡ (leb (depth + nesting v) max_depth && is_plain v)
    is_packed-value (integer v) depth le = ground arith
    is_packed-value (number v) depth le = ground arith
    is_packed-value (string s) depth le = ground arith
    is_packed-value (boolean b) depth le = ground arith
    is_packed-value (table entries) depth le = elim (Bool-cases (ltb max_depth (depth + 1))) [
      | inl deep ↦ rw deep (ground arith)
      | inr fine ↦ rw fine (
          is_packed-and_then (pack_entries env (depth + 1) entries) _ true (λ part. refl)
          ∙ and_true (is_packed (pack_entries env (depth + 1) entries))
          ∙ is_packed-entries entries (depth + 1) (room depth fine)
          ∙ ap (λ n. leb n max_depth && are_plain entries) (omega arith))
    ]
    is_packed-value other depth le = ground arith

    is_packed-entries :
        (entries : Entries) (depth : ℕ)
        → depth ≤ max_depth
        → is_packed (pack_entries env depth entries)
          ≡ (leb (depth + deepest entries) max_depth && are_plain entries)
    is_packed-entries empty depth le = ground arith
    is_packed-entries (entry k v entries) depth le =
        is_packed-and_then (pack_lua_data env depth k) _ _ (λ ks.
          is_packed-and_then (pack_lua_data env depth v) _ _
            (λ vs. is_packed-and_then (pack_entries env depth entries) _ true (λ others. refl)))
        ∙ ap₂ (λ a b. a && b) (is_packed-value k depth le)
            (ap₂ (λ a b. a && b) (is_packed-value v depth le)
              (and_true (is_packed (pack_entries env depth entries))
                ∙ is_packed-entries entries depth le))
        ∙ larger_both depth (nesting k) (nesting v) (deepest entries) (is_plain k) (is_plain v)
            (are_plain entries)

  -- The memory and the `int` length of an sds left aside: for every value, `ltpack` succeeds if and only if the value is a table, at most 256 tables stand in
  -- each other in it, itself included, and it has, at any depth, only numbers, strings, truth values
  -- and tables as keys and values.
  pub ltpack-succeeds :
      (v : Value)
      → is_packed (ltpack env v) ≡ (is_table v && (leb (nesting v) max_depth && is_plain v))
  unfolding ltpack
  ltpack-succeeds (table entries) =
      is_packed-value (table entries) 0 (omega arith)
      ∙ ap (λ n. leb n max_depth && is_plain (table entries)) (zero_add (nesting (table entries)))
  ltpack-succeeds (integer v) = refl
  ltpack-succeeds (number v) = refl
  ltpack-succeeds (string s) = refl
  ltpack-succeeds (boolean b) = refl
  ltpack-succeeds other = refl

  unpacked_value :
      {v : Value} (bytes : List ℕ)
      → unpack_lua_data env (suc (length bytes + 0)) (bytes ++ []) ≡ some (value v, [])
      → ltunpack env bytes ≡ some v
  unfolding ltunpack
  unpacked_value {v} bytes e = rw read refl
    where
      more : length bytes ≡ length bytes + 0
      more = omega arith

      read : unpack_lua_data env (suc (length bytes)) bytes ≡ some (value v, [])
      read = ap₂ (λ f l. unpack_lua_data env (suc f) l) more (sym (append-nil bytes)) ∙ e

  -- What is unpacked from the bytes of a value is that value.
  ltunpack-packed :
      (entries : Entries) (bytes : List ℕ)
      → AreWords entries
      → ltpack env (table entries) ≡ packed bytes
      → ltunpack env bytes ≡ some (table entries)
  unfolding ltpack ltunpack IsWord
  ltunpack-packed entries bytes w run =
      unpacked_value bytes (unpack-pack env (table entries) 0 0 bytes [] w run)

  -- A table in which, at any depth, keys and values are only numbers, strings, truth values and tables,
  -- and at most 256 tables stand in each other, itself included, with numbers of 64 bits, and of a size
  -- below 2^31 (9 for a number, 9 and its length for a string, 2 for a truth value, 2 and its keys and
  -- values for a table): `ltpack` succeeds with fewer than 2^31 bytes, which is what an sds can hold,
  -- and `ltunpack` of these bytes makes a table by setting the same pairs, in the order in which
  -- `lua_next` gave them, and so at every depth.
  pub ltunpack-ltpack :
      (entries : Entries)
      → nesting (table entries) ≤ max_depth
      → is_plain (table entries) ≡ true
      → AreWords entries
      → size_of (table entries) < 2 ^ 31
      → (bytes : List ℕ) × (ltpack env (table entries) ≡ packed bytes)
        × (length bytes < 2 ^ 31)
        × (ltunpack env bytes ≡ some (table entries))
  unfolding ltpack
  ltunpack-ltpack entries le plain w small =
      let (bytes, run) = packed_bytes (ltpack env (table entries)) (
        ltpack-succeeds (table entries)
        ∙ ap₂ (λ a b. a && b) (le→leb (nesting (table entries)) max_depth le) plain) in
      (
        bytes,
        run,
        omega (arith, small, length-packed env (table entries) 0 bytes run),
        ltunpack-packed entries bytes w run,
      )
