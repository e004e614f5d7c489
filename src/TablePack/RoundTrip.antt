-- ===== src/TablePack/RoundTrip.antt =====
-- A table that is packed is read back as it was.
use node_lua.Common.{
  ℕ, suc, ◌+◌, ◌-◌, ◌^◌, ◌<◌, ◌≤◌, ◌≡◌, refl, ap, sym, ◌∙◌, List, [], ◌∷◌, ◌++◌, append_assoc, some,
  ltb, if◌then◌else◌, length, length-append, arith, Bool-cases, inl, inr,
}
use node_lua.Endian
use node_lua.TablePack.{
  Value, Entries, integer, number, string, boolean, table, other, empty, entry, value, PackResult,
  failed, packed, and_then, max_depth, too_deep, pack_integer, pack_lua_data, pack_entries,
  unpack_lua_data, unpack_entries,
}
use node_lua.TablePack.Numbers.{
  read_integer-pack, read_number-pack, read_text-pack, read_truth-pack,
}

-- The numbers and lengths in a value are words of 64 bits.
unfoldable mutual
  pub IsWord : Value → Type 0
  IsWord (integer v) = v < 2 ^ 64
  IsWord (number v) = v < 2 ^ 64
  IsWord (string s) = length s < 2 ^ 64
  IsWord (boolean b) = Unit {0}
  IsWord (table entries) = AreWords entries
  IsWord other = Unit {0}

  pub AreWords : Entries → Type 0
  AreWords empty = Unit {0}
  AreWords (entry k v entries) = IsWord k × IsWord v × AreWords entries

-- What has been packed.
module _ {ℓ} {C : Type ℓ} where
  pub packed_parts :
      (r : PackResult) (k : List ℕ → PackResult) (bytes : List ℕ)
      → and_then r k ≡ packed bytes
      → ((part : List ℕ) → r ≡ packed part → k part ≡ packed bytes → C)
      → C
  packed_parts (failed e) k bytes run goal = absurd (cc)
  packed_parts (packed part) k bytes run goal = goal part refl run

pub unpacked : {a b : List ℕ} → packed a ≡ packed b → a ≡ b
unpacked e = cc

module _ (env : Endian.Order) where
  -- The same read with other fuel and bytes.
  data_at :
      {f f' : ℕ} {l l' : List ℕ}
      → f ≡ f'
      → l ≡ l'
      → unpack_lua_data env f l ≡ unpack_lua_data env f' l'
  data_at e e' = rw (e, e') refl

  entries_at :
      {f f' : ℕ} {l l' : List ℕ}
      → f ≡ f'
      → l ≡ l'
      → unpack_entries env f l ≡ unpack_entries env f' l'
  entries_at e e' = rw (e, e') refl

  read_table :
      (fuel : ℕ) (bytes rest : List ℕ) (entries : Entries)
      → unpack_entries env fuel bytes ≡ some (entries, rest)
      → unpack_lua_data env (suc fuel) (7 ∷ bytes) ≡ some (value (table entries), rest)
  unfolding unpack_lua_data
  read_table fuel bytes rest entries e = rw e refl

  read_entry :
      (fuel : ℕ) (bytes middle more rest : List ℕ) (k v : Value) (entries : Entries)
      → unpack_lua_data env fuel bytes ≡ some (value k, middle)
      → unpack_lua_data env fuel middle ≡ some (value v, more)
      → unpack_entries env fuel more ≡ some (entries, rest)
      → unpack_entries env (suc fuel) bytes ≡ some (entry k v entries, rest)
  unfolding unpack_entries
  read_entry fuel bytes middle more rest k v entries key val others = rw (key, val, others) refl

  read_end :
      (fuel : ℕ) (rest : List ℕ)
      → unpack_entries env (suc (suc fuel)) (8 ∷ rest) ≡ some (empty, rest)
  unfolding unpack_entries unpack_lua_data
  read_end fuel rest = refl

  pack_integer-nonempty : (v : ℕ) → 1 ≤ length (pack_integer env v)
  unfolding pack_integer
  pack_integer-nonempty v = ground arith

  -- The bytes of a table are those of its pairs, between its marks.
  pub packed_table {ℓ} :
      {C : Type ℓ} (entries : Entries) (depth : ℕ) (bytes : List ℕ)
      → pack_lua_data env depth (table entries) ≡ packed bytes
      → ((part : List ℕ)
          → pack_entries env (depth + 1) entries ≡ packed part
          → 7 ∷ (part ++ (8 ∷ [])) ≡ bytes
          → C)
      → C
  unfolding pack_lua_data
  packed_table entries depth bytes run goal = elim (Bool-cases (ltb max_depth (depth + 1))) [
    | inl deep ↦ absurd (cc)
    | inr fine ↦
        packed_parts (pack_entries env (depth + 1) entries) marked bytes
          (ap
              (λ b.
                if b
                then failed too_deep
                else and_then (pack_entries env (depth + 1) entries) marked)
              (sym fine)
            ∙ run)
          (λ part inner whole. goal part inner (unpacked whole))
  ]
    where
      marked : List ℕ → PackResult
      marked part = packed (7 ∷ (part ++ (8 ∷ [])))

  pack_lua_data-nonempty :
      (v : Value) (depth : ℕ) (bytes : List ℕ)
      → pack_lua_data env depth v ≡ packed bytes
      → 1 ≤ length bytes
  unfolding pack_lua_data
  pack_lua_data-nonempty (integer v) depth bytes run =
      omega (arith, ap length (unpacked run), pack_integer-nonempty v)
  pack_lua_data-nonempty (number v) depth bytes run = omega (arith, ap length (unpacked run))
  pack_lua_data-nonempty (string s) depth bytes run = omega (arith, ap length (unpacked run))
  pack_lua_data-nonempty (boolean b) depth bytes run = omega (arith, ap length (unpacked run))
  pack_lua_data-nonempty (table entries) depth bytes run =
      packed_table entries depth bytes run (λ part inner whole. omega (arith, ap length whole))
  pack_lua_data-nonempty other depth bytes run = absurd (cc)

  -- An entry is read when its key, its value and the others are.
  read_parts :
      (entries : Entries) (extra : ℕ) (bytes ks vs others rest : List ℕ) (k v : Value)
      → ks ++ (vs ++ others) ≡ bytes
      → 1 ≤ length ks
      → unpack_lua_data env
          (suc (length ks + (length vs + length others + extra)))
          (ks ++ (vs ++ (others ++ (8 ∷ rest))))
        ≡ some (value k, vs ++ (others ++ (8 ∷ rest)))
      → unpack_lua_data env
          (suc (length vs + (length ks + length others + extra)))
          (vs ++ (others ++ (8 ∷ rest)))
        ≡ some (value v, others ++ (8 ∷ rest))
      → unpack_entries env
          (suc (suc (length others + (length ks + length vs + extra - 1))))
          (others ++ (8 ∷ rest))
        ≡ some (entries, rest)
      → unpack_entries env (suc (suc (length bytes + extra))) (bytes ++ (8 ∷ rest))
        ≡ some (entry k v entries, rest)
  read_parts entries extra bytes ks vs others rest k v whole nonempty key val more =
      read_entry (suc (length bytes + extra)) (bytes ++ (8 ∷ rest)) (vs ++ (others ++ (8 ∷ rest)))
        (others ++ (8 ∷ rest)) rest k v entries (data_at (omega (arith, total)) regroup ∙ key)
        (data_at (omega (arith, total)) refl ∙ val)
        (entries_at (omega (arith, total, nonempty)) refl ∙ more)
    where
      total : length bytes ≡ length ks + (length vs + length others)
      total =
          sym (ap length whole)
          ∙ length-append ks (vs ++ others)
          ∙ ap (λ n. length ks + n) (length-append vs others)

      regroup : bytes ++ (8 ∷ rest) ≡ ks ++ (vs ++ (others ++ (8 ∷ rest)))
      regroup =
          ap (λ l. l ++ (8 ∷ rest)) (sym whole)
          ∙ append_assoc ks (vs ++ others) (8 ∷ rest)
          ∙ ap (λ l. ks ++ l) (append_assoc vs others (8 ∷ rest))

  mutual
    unfolding pack_lua_data pack_entries IsWord AreWords

    -- Enough fuel is one more than the bytes.
    pub unpack-pack :
        (v : Value) (depth extra : ℕ) (bytes rest : List ℕ)
        → IsWord v
        → pack_lua_data env depth v ≡ packed bytes
        → unpack_lua_data env (suc (length bytes + extra)) (bytes ++ rest) ≡ some (value v, rest)
    unpack-pack (integer v) depth extra bytes rest w run =
        data_at refl (ap (λ l. l ++ rest) (sym (unpacked run)))
        ∙ read_integer-pack env (length bytes + extra) v rest w
    unpack-pack (number v) depth extra bytes rest w run =
        data_at refl (ap (λ l. l ++ rest) (sym (unpacked run)))
        ∙ read_number-pack env (length bytes + extra) v rest w
    unpack-pack (string s) depth extra bytes rest w run =
        data_at refl (ap (λ l. l ++ rest) (sym (unpacked run)))
        ∙ read_text-pack env (length bytes + extra) s rest w
    unpack-pack (boolean b) depth extra bytes rest w run =
        data_at refl (ap (λ l. l ++ rest) (sym (unpacked run)))
        ∙ read_truth-pack env (length bytes + extra) b rest
    unpack-pack (table entries) depth extra bytes rest w run =
        packed_table entries depth bytes run (λ part inner whole.
          data_at (size part whole)
            (ap (λ l. l ++ rest) (sym whole) ∙ ap (λ l. 7 ∷ l) (append_assoc part (8 ∷ []) rest))
          ∙ read_table (suc (suc (length part + extra))) (part ++ (8 ∷ rest)) rest entries
              (unpack_entries-pack entries (depth + 1) extra part rest w inner))
      where
        size :
            (part : List ℕ)
            → 7 ∷ (part ++ (8 ∷ [])) ≡ bytes
            → suc (length bytes + extra) ≡ suc (suc (suc (length part + extra)))
        size part e = omega (arith, ap length e, length-append part (8 ∷ []))
    unpack-pack other depth extra bytes rest w run = absurd (cc)

    unpack_entries-pack :
        (entries : Entries) (depth extra : ℕ) (bytes rest : List ℕ)
        → AreWords entries
        → pack_entries env depth entries ≡ packed bytes
        → unpack_entries env (suc (suc (length bytes + extra))) (bytes ++ (8 ∷ rest))
          ≡ some (entries, rest)
    unpack_entries-pack empty depth extra bytes rest w run =
        entries_at refl (ap (λ l. l ++ (8 ∷ rest)) (sym (unpacked run)))
        ∙ read_end (length bytes + extra) rest
    unpack_entries-pack (entry k v entries) depth extra bytes rest (wk, wv, ws) run =
        packed_parts (pack_lua_data env depth k) _ bytes run (λ ks key run'.
          packed_parts (pack_lua_data env depth v) _ bytes run' (λ vs val run''.
            packed_parts (pack_entries env depth entries) _ bytes run'' (λ others inner whole.
              read_parts entries extra bytes ks vs others rest k v (unpacked whole)
                (pack_lua_data-nonempty k depth ks key)
                (unpack-pack k depth (length vs + length others + extra) ks
                  (vs ++ (others ++ (8 ∷ rest))) wk key)
                (unpack-pack v depth (length ks + length others + extra) vs (others ++ (8 ∷ rest))
                  wv val)
                (unpack_entries-pack entries depth (length ks + length vs + extra - 1) others rest
                  ws inner))))
