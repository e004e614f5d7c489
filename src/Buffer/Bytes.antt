-- ===== src/Buffer/Bytes.antt =====
-- Writes within the bytes of a block.
use node_lua.Common.{
  ℕ, zero, suc, ◌+◌, ◌≤◌, ◌<◌, ◌≡◌, refl, ap, sym, ◌∙◌, List, [], ◌∷◌, ◌++◌, some, le→leb,
  get_elem?, length, take, drop, arith,
}
use node_lua.Buffer.Heap.{write_at}

-- A write that fits replaces exactly its range.
pub write_at-some :
    (dst : List ℕ) (off : ℕ) (src : List ℕ)
    → off + length src ≤ length dst
    → write_at dst off src ≡ some (take off dst ++ (src ++ drop (off + length src) dst))
unfolding write_at
write_at-some dst off src h = rw (le→leb (off + length src) (length dst) h)

module _ {ℓ} {A : Type ℓ} where
  pub take-append : (n : ℕ) (xs ys : List A) → n ≤ length xs → take n (xs ++ ys) ≡ take n xs
  take-append zero xs ys h = refl
  take-append (suc n) [] ys h = absurd (omega arith)
  take-append (suc n) (x ∷ xs) ys h = ap (λ l. x ∷ l) (take-append n xs ys (omega arith))

  pub take-append_right :
      (n : ℕ) (xs ys : List A) → take (length xs + n) (xs ++ ys) ≡ xs ++ take n ys
  take-append_right n [] ys = ap (λ k. take k ys) (omega arith)
  take-append_right n (x ∷ xs) ys =
      ap (λ k. take k (x ∷ (xs ++ ys))) (shift (length xs))
      ∙ ap (λ l. x ∷ l) (take-append_right n xs ys)
    where
      shift : (k : ℕ) → suc k + n ≡ suc (k + n)
      shift k = omega arith

  pub drop-append_right : (xs ys : List A) → drop (length xs) (xs ++ ys) ≡ ys
  drop-append_right [] ys = refl
  drop-append_right (x ∷ xs) ys = drop-append_right xs ys

  pub take_all : (n : ℕ) (xs : List A) → length xs ≤ n → take n xs ≡ xs
  take_all zero [] h = refl
  take_all zero (x ∷ xs) h = absurd (omega arith)
  take_all (suc n) [] h = refl
  take_all (suc n) (x ∷ xs) h = ap (λ l. x ∷ l) (take_all n xs (omega arith))

  pub take-take : (m n : ℕ) (xs : List A) → m ≤ n → take m (take n xs) ≡ take m xs
  take-take zero n xs h = refl
  take-take (suc m) zero xs h = absurd (omega arith)
  take-take (suc m) (suc n) [] h = refl
  take-take (suc m) (suc n) (x ∷ xs) h = ap (λ l. x ∷ l) (take-take m n xs (omega arith))

  pub take-nil : (n : ℕ) → take {A = A} n [] ≡ []
  take-nil zero = refl
  take-nil (suc n) = refl

  pub take-drop : (m n : ℕ) (xs : List A) → take m (drop n xs) ≡ drop n (take (n + m) xs)
  take-drop m zero xs = ap (λ k. take k xs) (omega arith)
  take-drop zero (suc n) [] = ap (drop (suc n)) (sym (take-nil (suc n + 0)))
  take-drop (suc m) (suc n) [] = ap (drop (suc n)) (sym (take-nil (suc n + suc m)))
  take-drop m (suc n) (x ∷ xs) =
      take-drop m n xs ∙ sym (ap (λ k. drop (suc n) (take k (x ∷ xs))) (shift n))
    where
      shift : (k : ℕ) → suc k + m ≡ suc (k + m)
      shift k = omega arith

  pub drop-append_more : (n : ℕ) (xs ys : List A) → drop (length xs + n) (xs ++ ys) ≡ drop n ys
  drop-append_more n [] ys = ap (λ k. drop k ys) (omega arith)
  drop-append_more n (x ∷ xs) ys =
      ap (λ k. drop k (x ∷ (xs ++ ys))) (shift (length xs)) ∙ drop-append_more n xs ys
    where
      shift : (k : ℕ) → suc k + n ≡ suc (k + n)
      shift k = omega arith

  pub drop-nil : (n : ℕ) → drop {A = A} n [] ≡ []
  drop-nil zero = refl
  drop-nil (suc n) = refl

  pub drop-drop : (m n : ℕ) (xs : List A) → drop m (drop n xs) ≡ drop (n + m) xs
  drop-drop m zero xs = ap (λ k. drop k xs) (omega arith)
  drop-drop m (suc n) [] = drop-nil m ∙ sym (drop-nil (suc n + m))
  drop-drop m (suc n) (x ∷ xs) = drop-drop m n xs ∙ ap (λ k. drop k (x ∷ xs)) (shift n)
    where
      shift : (k : ℕ) → suc (k + m) ≡ suc k + m
      shift k = omega arith

  pub get_elem?-take : (n i : ℕ) (xs : List A) → i < n → get_elem? (take n xs) i ≡ get_elem? xs i
  get_elem?-take zero i xs h = elim h [ ]
  get_elem?-take (suc n) i [] h = refl
  get_elem?-take (suc n) zero (x ∷ xs) h = refl
  get_elem?-take (suc n) (suc i) (x ∷ xs) h = get_elem?-take n i xs (omega arith)

  pub get_elem?-append_left :
      (xs ys : List A) (i : ℕ) → i < length xs → get_elem? (xs ++ ys) i ≡ get_elem? xs i
  get_elem?-append_left [] ys i h = elim h [ ]
  get_elem?-append_left (x ∷ xs) ys zero h = refl
  get_elem?-append_left (x ∷ xs) ys (suc i) h = get_elem?-append_left xs ys i (omega arith)
