-- ===== src/Endian/RoundTrip.antt =====
-- What is written with one width and order is read back with them, on either kind of machine.
use native.Mathlib.Nat.{mod-eq_of_lt, add-mul-mod_self_right, mod-lt, div-add-mod, pow-suc}
use node_lua.Common.{
  ℕ, zero, suc, ◌+◌, ◌-◌, ◌*◌, ◌/◌, ◌%◌, ◌^◌, ◌<◌, ◌≤◌, ◌≡◌, refl, ap, sym, ◌∙◌, arith, length,
}
use node_lua.Endian.{
  Order, little, big, low_first, value_low, sign_extend, endian_to_integer, endian_from_integer,
}

pow_pos : (n : ℕ) → 0 < 256 ^ n
pow_pos zero = omega arith
pow_pos (suc n) = omega (arith, pow_pos n, pow-suc 256 n)

-- A remainder by `256 p`, byte by byte.
mod_byte : (a p : ℕ) → 0 < p → a % 256 + 256 * (a / 256 % p) ≡ a % (p * 256)
mod_byte a p h =
    sym (mod-eq_of_lt small)
    ∙ sym (add-mul-mod_self_right low (a / 256 / p) (p * 256))
    ∙ ap (λ n. n % (p * 256)) whole
  where
    low : ℕ
    low = a % 256 + 256 * (a / 256 % p)

    small : low < p * 256
    small = omega (arith, mod-lt (a / 256) {m = p} h)

    whole : low + a / 256 / p * (p * 256) ≡ a
    whole = omega (arith, div-add-mod (a / 256) p)

pub value_low-low_first : (n v : ℕ) → value_low (low_first n v) ≡ v % 256 ^ n
unfolding value_low low_first
value_low-low_first zero v = omega arith
value_low-low_first (suc n) v =
    ap (λ t. v % 256 + 256 * t) (value_low-low_first n (v / 256))
    ∙ mod_byte v (256 ^ n) (pow_pos n)
    ∙ ap (λ m. v % m) (sym (pow-suc 256 n))

-- An integer of the full width stands for itself.
sign_extend_eight : (v : ℕ) → v < 2 ^ 64 → v ≡ sign_extend 8 v
unfolding sign_extend
sign_extend_eight v h = ground arith

bytes_mod : (n v m : ℕ) → v % m < 256 ^ n → value_low (low_first n (v % m)) ≡ v % m
bytes_mod n v m h = value_low-low_first n (v % m) ∙ mod-eq_of_lt h

-- The round trip for each width.
module _ (v : ℕ) where
  trip_one :
      (env e : Order)
      → endian_to_integer env (endian_from_integer env v 1 e) 1 e ≡ sign_extend 1 (v % 2 ^ 8)
  unfolding endian_to_integer endian_from_integer
  trip_one env e = refl

  trip_two :
      (env e : Order)
      → endian_to_integer env (endian_from_integer env v 2 e) 2 e ≡ sign_extend 2 (v % 2 ^ 16)
  unfolding endian_to_integer endian_from_integer low_first value_low
  trip_two little little = ap (sign_extend 2) (bytes_mod 2 v (2 ^ 16) (omega arith))
  trip_two little big = ap (sign_extend 2) (bytes_mod 2 v (2 ^ 16) (omega arith))
  trip_two big little = ap (sign_extend 2) (bytes_mod 2 v (2 ^ 16) (omega arith))
  trip_two big big = ap (sign_extend 2) (bytes_mod 2 v (2 ^ 16) (omega arith))

  trip_four :
      (env e : Order)
      → endian_to_integer env (endian_from_integer env v 4 e) 4 e ≡ sign_extend 4 (v % 2 ^ 32)
  unfolding endian_to_integer endian_from_integer low_first value_low
  trip_four little little = ap (sign_extend 4) (bytes_mod 4 v (2 ^ 32) (omega arith))
  trip_four little big = ap (sign_extend 4) (bytes_mod 4 v (2 ^ 32) (omega arith))
  trip_four big little = ap (sign_extend 4) (bytes_mod 4 v (2 ^ 32) (omega arith))
  trip_four big big = ap (sign_extend 4) (bytes_mod 4 v (2 ^ 32) (omega arith))

  trip_eight :
      (env e : Order) → endian_to_integer env (endian_from_integer env v 8 e) 8 e ≡ v % 2 ^ 64
  unfolding endian_to_integer endian_from_integer low_first value_low
  trip_eight little little = value_low-low_first 8 v
  trip_eight little big = value_low-low_first 8 v
  trip_eight big little = value_low-low_first 8 v
  trip_eight big big = value_low-low_first 8 v

-- The widths that the functions know.
pub data IsWidth : ℕ → Type 0 where
  one : IsWidth 1
  two : IsWidth 2
  four : IsWidth 4
  eight : IsWidth 8

-- What is written and read back with one width and order is the low bytes of the integer, taken
-- as a signed integer of that width, on either kind of machine.
pub endian_to_integer-from :
    (env e : Order) (v : ℕ) {n : ℕ}
    → IsWidth n
    → endian_to_integer env (endian_from_integer env v n e) n e ≡ sign_extend n (v % 2 ^ (8 * n))
endian_to_integer-from env e v one = trip_one v env e
endian_to_integer-from env e v two = trip_two v env e
endian_to_integer-from env e v four = trip_four v env e
endian_to_integer-from env e v eight =
    trip_eight v env e ∙ sign_extend_eight (v % 2 ^ 64) (omega arith)

-- An integer that fits as a signed one comes back as it was.
pub endian_round_trip :
    (env e : Order) (v : ℕ) {n : ℕ}
    → IsWidth n
    → v < 2 ^ (8 * n - 1)
    → endian_to_integer env (endian_from_integer env v n e) n e ≡ v
unfolding sign_extend
endian_round_trip env e v w h = endian_to_integer-from env e v w ∙ small w h
  where
    small : {n : ℕ} → IsWidth n → v < 2 ^ (8 * n - 1) → sign_extend n (v % 2 ^ (8 * n)) ≡ v
    small one h' = ground arith
    small two h' = ground arith
    small four h' = ground arith
    small eight h' = ground arith

-- An integer with the top bit of its width set comes back as the negative number with the same low
-- bytes, so a length of 128 to 255 in one byte, or of 32768 to 65535 in two, is not read back.
pub endian_round_trip_negative :
    (env e : Order) (v : ℕ) {n : ℕ}
    → IsWidth n
    → 2 ^ (8 * n - 1) ≤ v
    → v < 2 ^ (8 * n)
    → endian_to_integer env (endian_from_integer env v n e) n e + 2 ^ (8 * n) ≡ v + 2 ^ 64
unfolding sign_extend
endian_round_trip_negative env e v {n} w low high =
    rw (endian_to_integer-from env e v w) (large w low high)
  where
    large :
        {n : ℕ}
        → IsWidth n
        → 2 ^ (8 * n - 1) ≤ v
        → v < 2 ^ (8 * n)
        → sign_extend n (v % 2 ^ (8 * n)) + 2 ^ (8 * n) ≡ v + 2 ^ 64
    large one l h = ground arith
    large two l h = ground arith
    large four l h = ground arith
    large eight l h = ground arith

-- As many bytes are written as the width says.
pub length-endian_from_integer :
    (env e : Order) (v : ℕ) {n : ℕ} → IsWidth n → length (endian_from_integer env v n e) ≡ n
unfolding endian_from_integer low_first
length-endian_from_integer env e v one = refl
length-endian_from_integer little little v two = refl
length-endian_from_integer little big v two = refl
length-endian_from_integer big little v two = refl
length-endian_from_integer big big v two = refl
length-endian_from_integer little little v four = refl
length-endian_from_integer little big v four = refl
length-endian_from_integer big little v four = refl
length-endian_from_integer big big v four = refl
length-endian_from_integer little little v eight = refl
length-endian_from_integer little big v eight = refl
length-endian_from_integer big little v eight = refl
length-endian_from_integer big big v eight = refl
