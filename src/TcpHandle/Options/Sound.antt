-- ===== src/TcpHandle/Options/Sound.antt =====
-- What the options of a socket can be.
use native.Mathlib.Decide.{ℕ_discrete}
use node_lua.Common.{
  ℕ, ◌%◌, ◌^◌, ◌<◌, ◌≤◌, ◌≡◌, ◌≢◌, refl, sym, ap, subst, ◌∙◌, List, Option, none, some, Bool, true,
  false, not, ◌&&◌, ltb, ◌==◌, if◌then◌else◌, arith, Bool-cases, inl, inr, ne→==,
}
use node_lua.Endian.{Order}
use node_lua.Endian.RoundTrip.{IsWidth, one, two, four, eight}
use node_lua.TcpHandle.{HeadOption}
use node_lua.TcpHandle.Options.{
  not_match, raised, value, Checked, and_then, Field, nil, given, Fields, assign, head_width,
  bytes_max, opt_check_bytes_max, bind, opt_check_endian, opt_check_bytes, opt_check_max,
  check_option, store, set_rwopt,
}

-- No header, or one of 1, 2 or 4 bytes, with a maximum above 0 that the width and a buffer can hold.
pub data IsSound (o : HeadOption) : Type 0 where
  bare : o.bytes ≡ 0 → o.max ≡ 0 → IsSound o
  headed : IsWidth o.bytes → o.bytes ≤ 4 → 0 < o.max → o.max ≤ bytes_max o.bytes → IsSound o

unvalue {ℓ} : {A : Type ℓ} {a b : A} → value a ≡ value b → a ≡ b
unvalue e = cc

-- The widths.
pub data IsHeadBytes : ℕ → Type 0 where
  bare_bytes : IsHeadBytes 0
  head_bytes : {n : ℕ} → IsWidth n → n ≤ 4 → IsHeadBytes n

head_width-none : (n : ℕ) → n ≢ 0 → n ≢ 1 → n ≢ 2 → n ≢ 4 → head_width n ≡ none
head_width-none n n0 n1 n2 n4 = rw (ne→== n 0 n0, ne→== n 1 n1, ne→== n 2 n2, ne→== n 4 n4) refl

-- One of the widths that are let through.
is_width :
    {n k m : ℕ}
    → n ≡ k
    → head_width k ≡ some k
    → IsHeadBytes k
    → head_width n ≡ some m
    → IsHeadBytes m
is_width e through w got = subst IsHeadBytes (unsome (sym through ∙ ap head_width (sym e) ∙ got)) w
  where
    unsome : {a b : ℕ} → some a ≡ some b → a ≡ b
    unsome e' = cc

head_width-some : (n m : ℕ) → head_width n ≡ some m → IsHeadBytes m
head_width-some n m e = elim (ℕ_discrete n 0) [
  | yes at ↦ is_width at refl bare_bytes e
  | no n0 ↦ elim (ℕ_discrete n 1) [
    | yes at ↦ is_width at refl (head_bytes one (omega arith)) e
    | no n1 ↦ elim (ℕ_discrete n 2) [
      | yes at ↦ is_width at refl (head_bytes two (omega arith)) e
      | no n2 ↦ elim (ℕ_discrete n 4) [
        | yes at ↦ is_width at refl (head_bytes four (omega arith)) e
        | no n4 ↦ absurd (let gone = head_width-none n n0 n1 n2 n4 in cc)
      ]
    ]
  ]
]

chosen_bounds :
    (bytes max B : ℕ)
    → ltb B max ≡ false
    → ((if ltb 0 bytes && (max == 0) then B else max) ≤ B)
      × ((0 < bytes) → 0 < B → 0 < (if ltb 0 bytes && (max == 0) then B else max))
chosen_bounds bytes max B e = (ground arith, λ pos room. ground arith)

opt_check_bytes_max-value :
    (bytes max max' : ℕ)
    → opt_check_bytes_max bytes max ≡ value max'
    → (max' ≤ bytes_max bytes) × ((0 < bytes) → 0 < bytes_max bytes → 0 < max')
unfolding opt_check_bytes_max
opt_check_bytes_max-value bytes max max' e = by_fit (ltb (bytes_max bytes) max) refl e
  where
    chosen : ℕ
    chosen = if ltb 0 bytes && (max == 0) then bytes_max bytes else max

    by_fit :
        (b : Bool)
        → ltb (bytes_max bytes) max ≡ b
        → ◌≡◌ {A = Checked ℕ} (if b then raised not_match else value chosen) (value max')
        → (max' ≤ bytes_max bytes) × ((0 < bytes) → 0 < bytes_max bytes → 0 < max')
    by_fit true long e' = absurd (cc)
    by_fit false short e' =
        subst (λ n. (n ≤ bytes_max bytes) × ((0 < bytes) → 0 < bytes_max bytes → 0 < n))
          (unvalue e') (chosen_bounds bytes max (bytes_max bytes) short)

-- The width after the check: a sound one stays, and a new one is one of those let through.
module _ {V : Type 0} (to_string : V → Option (List ℕ)) (to_unsigned : V → Option ℕ) where
  opt_check_bytes-IsHeadBytes :
      (field : Field V) (bytes bytes' : ℕ) (frozen : Bool)
      → IsHeadBytes bytes
      → opt_check_bytes to_string to_unsigned field bytes frozen ≡ value bytes'
      → IsHeadBytes bytes'
  unfolding opt_check_bytes assign bind
  opt_check_bytes-IsHeadBytes nil bytes bytes' frozen w e = subst IsHeadBytes (unvalue e) w
  opt_check_bytes-IsHeadBytes (given v) bytes bytes' frozen w e = by_number (to_unsigned v) e
    where
      assigned : (o : Option ℕ) (frozen : Bool) → assign o frozen ≡ value bytes' → o ≡ some bytes'
      assigned none frozen' e' = absurd (cc)
      assigned (some a) true e' = absurd (cc)
      assigned (some a) false e' = ap some (unvalue e')

      by_number :
          (o : Option ℕ)
          → assign (bind to_string to_unsigned o (λ n. head_width (n % 2 ^ 32))) frozen
            ≡ value bytes'
          → IsHeadBytes bytes'
      by_number none e' = absurd (cc)
      by_number (some n) e' =
          head_width-some (n % 2 ^ 32) bytes' (assigned (head_width (n % 2 ^ 32)) frozen e')

  sound_bytes : (o : HeadOption) → IsSound o → IsHeadBytes o.bytes
  sound_bytes o (bare e e') = subst IsHeadBytes (sym e) bare_bytes
  sound_bytes o (headed w le pos max) = head_bytes w le

  sound :
      (endian : Order) (bytes max : ℕ) (frozen : Bool)
      → IsHeadBytes bytes
      → (max ≤ bytes_max bytes) × ((0 < bytes) → 0 < bytes_max bytes → 0 < max)
      → IsSound (record { frozen = frozen; endian = endian; bytes = bytes; max = max })
  sound endian _ max frozen bare_bytes (small, opened) = bare refl (omega (arith, small))
  sound endian _ max frozen (head_bytes one le) (small, opened) =
      headed one le (opened (omega arith) (omega arith)) small
  sound endian _ max frozen (head_bytes two le) (small, opened) =
      headed two le (opened (omega arith) (omega arith)) small
  sound endian _ max frozen (head_bytes four le) (small, opened) =
      headed four le (opened (omega arith) (omega arith)) small
  sound endian _ max frozen (head_bytes eight le) (small, opened) = absurd (omega (arith, le))

  check_option-IsSound :
      (t : Fields V) (o o' : HeadOption)
      → IsSound o
      → check_option to_string to_unsigned t o ≡ value o'
      → IsSound o' × (o'.frozen ≡ o.frozen)
  unfolding check_option and_then
  check_option-IsSound t o o' v run =
      chain (opt_check_endian to_string to_unsigned t.head_endian o.endian o.frozen)
        (opt_check_bytes to_string to_unsigned t.head_bytes o.bytes o.frozen)
        (opt_check_max to_string to_unsigned t.head_max o.max o.frozen)
        (λ bytes. opt_check_bytes-IsHeadBytes t.head_bytes o.bytes bytes o.frozen (sound_bytes o v))
        run
    where
      last :
          (endian : Order) (bytes max : ℕ) (c : Checked ℕ)
          → opt_check_bytes_max bytes max ≡ c
          → IsHeadBytes bytes
          → and_then c (λ max'. value (record o { endian = endian; bytes = bytes; max = max' }))
            ≡ value o'
          → IsSound o' × (o'.frozen ≡ o.frozen)
      last endian bytes max (raised x) e w run' = absurd (cc)
      last endian bytes max (value max') e w run' =
          subst (λ t. IsSound t × (t.frozen ≡ o.frozen)) (unvalue run')
            (sound endian bytes max' o.frozen w (opt_check_bytes_max-value bytes max max' e), refl)

      chain :
          (endians : Checked Order) (widths maxima : Checked ℕ)
          → ((bytes : ℕ) → widths ≡ value bytes → IsHeadBytes bytes)
          → and_then endians (λ endian. and_then widths (λ bytes. and_then maxima (λ max.
            and_then
              (opt_check_bytes_max bytes max)
              (λ max'. value (record o { endian = endian; bytes = bytes; max = max' })))))
            ≡ value o'
          → IsSound o' × (o'.frozen ≡ o.frozen)
      chain (raised x) widths maxima known run' = absurd (cc)
      chain (value endian) (raised x) maxima known run' = absurd (cc)
      chain (value endian) (value bytes) (raised x) known run' = absurd (cc)
      chain (value endian) (value bytes) (value max) known run' =
          last endian bytes max (opt_check_bytes_max bytes max) refl (known bytes refl) run'

  store-IsSound :
      (o o' : HeadOption) → IsSound o → IsSound o' → IsSound (store to_string to_unsigned o o')
  store-IsSound o o' v v' = elim (Bool-cases (not o'.frozen)) [
    | inl free ↦ rw (free) v'
    | inr frozen ↦ rw (frozen) v
  ]

  -- Whatever a table holds, the options that `set_rwopt` leaves are sound when those before were: no
  -- header, or one of 1, 2 or 4 bytes with a maximum above 0 which that width, read as unsigned, and
  -- a buffer can hold. And an option that is frozen stays as it was.
  pub set_rwopt-IsSound :
      (t u : Fields V) (r w r' w' : HeadOption)
      → IsSound r
      → IsSound w
      → set_rwopt to_string to_unsigned (t, u) (r, w) ≡ value (r', w')
      → (IsSound r' × (r.frozen ≡ true → r' ≡ r)) × (IsSound w' × (w.frozen ≡ true → w' ≡ w))
  unfolding set_rwopt and_then
  set_rwopt-IsSound t u r w r' w' vr vw run =
      both (check_option to_string to_unsigned t r) (check_option to_string to_unsigned u w)
        (λ o o' e is. stored t r o o' vr e is) (λ o o' e is. stored u w o o' vw e is) run
    where
      Kept : HeadOption → HeadOption → Type 0
      Kept o o' = IsSound o' × (o.frozen ≡ true → o' ≡ o)

      Stored : HeadOption → Checked HeadOption → Type 0
      Stored o c =
          (o' o'' : HeadOption) → c ≡ value o' → store to_string to_unsigned o o' ≡ o'' → Kept o o''

      stored :
          (t : Fields V) (o o' o'' : HeadOption)
          → IsSound o
          → check_option to_string to_unsigned t o ≡ value o'
          → store to_string to_unsigned o o' ≡ o''
          → IsSound o'' × (o.frozen ≡ true → o'' ≡ o)
      stored t o o' o'' v e is =
          let (v', same) = check_option-IsSound t o o' v e in
          (
            subst IsSound is (store-IsSound o o' v v'),
            λ frozen. sym is ∙ ap (λ b. if not b then o' else o) (same ∙ frozen),
          )

      both :
          (c d : Checked HeadOption)
          → Stored r c
          → Stored w d
          → and_then {B = HeadOption × HeadOption} c (λ r''.
            and_then {B = HeadOption × HeadOption} d
              (λ w''. value (store to_string to_unsigned r r'', store to_string to_unsigned w w'')))
            ≡ value (r', w')
          → Kept r r' × Kept w w'
      both (raised x) d sr sw run' = absurd (cc)
      both (value r'') (raised x) sr sw run' = absurd (cc)
      both (value r'') (value w'') sr sw run' =
          let same = unvalue run' in
          (sr r'' r' refl (ap (λ p. p.0) same), sw w'' w' refl (ap (λ p. p.1) same))
