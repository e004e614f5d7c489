-- ===== src/Endian/Native.antt =====
-- Integers in the order of the machine.
use node_lua.Common.{
  ℕ, zero, suc, ◌/◌, ◌%◌, ◌^◌, ◌≡◌, refl, ap, sym, ◌∙◌, List, [], ◌∷◌, ◌++◌, append_assoc,
  append-nil, length, length-append, arith,
}
use node_lua.Endian.{
  Order, little, big, backwards, low_first, value_low, native_bytes, native_value,
}
use node_lua.Endian.RoundTrip.{value_low-low_first}

backwards-append : (xs ys : List ℕ) → backwards (xs ++ ys) ≡ backwards ys ++ backwards xs
backwards-append [] ys = sym (append-nil (backwards ys))
backwards-append (x ∷ xs) ys =
    ap (λ l. l ++ (x ∷ [])) (backwards-append xs ys)
    ∙ append_assoc (backwards ys) (backwards xs) (x ∷ [])

backwards-backwards : (xs : List ℕ) → backwards (backwards xs) ≡ xs
backwards-backwards [] = refl
backwards-backwards (x ∷ xs) =
    backwards-append (backwards xs) (x ∷ []) ∙ ap (λ l. x ∷ l) (backwards-backwards xs)

length-backwards : (xs : List ℕ) → length (backwards xs) ≡ length xs
length-backwards [] = refl
length-backwards (x ∷ xs) =
    omega (arith, length-append (backwards xs) (x ∷ []), length-backwards xs)

length-low_first : (n v : ℕ) → length (low_first n v) ≡ n
unfolding low_first
length-low_first zero v = refl
length-low_first (suc n) v = omega (arith, length-low_first n (v / 256))

pub length-native_bytes : (env : Order) (n v : ℕ) → length (native_bytes env n v) ≡ n
unfolding native_bytes
length-native_bytes little n v = length-low_first n v
length-native_bytes big n v = length-backwards (low_first n v) ∙ length-low_first n v

-- The low bytes of an integer in memory, read back.
pub native_value-native_bytes :
    (env : Order) (n v : ℕ) → native_value env (native_bytes env n v) ≡ v % 256 ^ n
unfolding native_bytes native_value
native_value-native_bytes little n v = value_low-low_first n v
native_value-native_bytes big n v =
    ap value_low (backwards-backwards (low_first n v)) ∙ value_low-low_first n v
