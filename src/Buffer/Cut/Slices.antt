-- ===== src/Buffer/Cut/Slices.antt =====
-- The bytes that `close_gap`, `emptied` and `copy_without` leave in a block: slices of the old ones.
use native.Mathlib.Decide.{dec_lt}
use node_lua.Common.{
  ℕ, zero, suc, ◌+◌, ◌-◌, ◌≤◌, ◌<◌, ◌≡◌, refl, ap, ap₂, sym, ◌∙◌, List, [], ◌∷◌, ◌++◌, append-nil,
  append_assoc, some, lt→ltb, le→ltb, length, take, drop, get_elem?, length-append, length-take,
  length-drop, arith,
}
use node_lua.Common.Words.{sub32}
use node_lua.Buffer.Heap.{Block, write_at}
use node_lua.Buffer.Bytes.{write_at-some, take-append, take_all, take-take, take-drop}
use node_lua.Buffer.Blocks.{HasShape, contents}
use node_lua.Buffer.Cut.{shift_down, close_gap}

-- A write that fits, seen from its two ends.
record Wrote (dst : List ℕ) (off : ℕ) (src : List ℕ) (out : List ℕ) : Type 0 where
  runs : write_at dst off src ≡ some out
  front : take (off + length src) out ≡ take off dst ++ src
  whole : length out ≡ length dst
  last : get_elem? out off ≡ get_elem? (src ++ drop (off + length src) dst) 0

get_elem?-skip : (xs ys : List ℕ) (n : ℕ) → length xs ≡ n → get_elem? (xs ++ ys) n ≡ get_elem? ys 0
get_elem?-skip [] ys zero h = refl
get_elem?-skip [] ys (suc n) h = absurd (omega arith)
get_elem?-skip (x ∷ xs) ys zero h = absurd (omega arith)
get_elem?-skip (x ∷ xs) ys (suc n) h = get_elem?-skip xs ys n (omega arith)

writes :
    (dst : List ℕ) (off : ℕ) (src : List ℕ)
    → off + length src ≤ length dst
    → (out : List ℕ) × Wrote dst off src out
writes dst off src h = (
  take off dst ++ (src ++ rest),
  record {
    runs = write_at-some dst off src h;
    front =
        ap (take (off + length src)) (sym (append_assoc (take off dst) src rest))
        ∙ take-append (off + length src) (take off dst ++ src) rest
            (omega (arith, length-append (take off dst) src, length-take off dst))
        ∙ take_all (off + length src) (take off dst ++ src)
            (omega (arith, length-append (take off dst) src, length-take off dst));
    whole = omega (
      arith,
      length-append (take off dst) (src ++ rest),
      length-append src rest,
      length-take off dst,
      length-drop (off + length src) dst,
    );
    last = get_elem?-skip (take off dst) (src ++ rest) off (omega (arith, length-take off dst));
  },
)
  where
    rest : List ℕ
    rest = drop (off + length src) dst

-- Contents of length `n` with a zero behind them.
record Ends (bytes : List ℕ) (n : ℕ) (text : List ℕ) : Type 0 where
  text_at : take n bytes ≡ text
  zero_at : get_elem? bytes n ≡ some 0

ends :
    (bytes : List ℕ) (n : ℕ) (text : List ℕ)
    → n < length bytes
    → take n bytes ≡ text
    → (out : List ℕ) × (write_at bytes n (0 ∷ []) ≡ some out)
      × (length out ≡ length bytes)
      × Ends out n text
ends bytes n text h e =
    let (out, w) = writes bytes n (0 ∷ []) (omega arith) in
    (
      out,
      w.runs,
      w.whole,
      record {
        text_at =
            sym (take-take n (n + 1) out (omega arith))
            ∙ ap (take n) w.front
            ∙ take-append n (take n bytes) (0 ∷ []) (omega (arith, length-take n bytes))
            ∙ take_all n (take n bytes) (omega (arith, length-take n bytes))
            ∙ e;
        zero_at = w.last;
      },
    )

-- A block that holds `text`, as another operation left it.
pub record Holds (b : Block) (text : List ℕ) (ref' : ℕ) : Type 0 where
  pub shape : HasShape b
  pub ended : get_elem? b.bytes b.len ≡ some 0
  pub counted : b.ref ≡ ref'
  pub text_is : contents b ≡ text

-- The contents of a block without the `k` bytes at `start`.
abbrev pub gap_text : Block → ℕ → ℕ → List ℕ
gap_text b start k = take start (contents b) ++ drop (start + k) (contents b)

module _ (b : Block) (start k : ℕ) (v : HasShape b) (inside : start + k ≤ b.len) where
  tail_bytes : List ℕ
  tail_bytes = take (b.len - k - start) (drop (start + k) b.bytes)

  tail_bytes-eq : tail_bytes ≡ drop (start + k) (contents b)
  unfolding tail_bytes
  tail_bytes-eq =
      take-drop (b.len - k - start) (start + k) b.bytes
      ∙ ap (λ m. drop (start + k) (take m b.bytes)) (sum (b.len - k - start) refl)
    where
      sum : (r : ℕ) → r ≡ b.len - k - start → start + k + r ≡ b.len
      sum r e = omega arith

  minus : sub32 b.len k ≡ b.len - k
  minus = omega (arith, v.fits, v.small)

  length-tail_bytes : length tail_bytes ≡ b.len - k - start
  unfolding tail_bytes
  length-tail_bytes = omega (
    arith,
    length-take (b.len - k - start) (drop (start + k) b.bytes),
    length-drop (start + k) b.bytes,
    v.storage,
    v.fits,
  )

  front-eq : take start b.bytes ≡ take start (contents b)
  front-eq = sym (take-take start b.len b.bytes (omega arith))

  -- Where nothing lies behind the gap, the front is all that is left.
  no_tail : b.len - k ≤ start → take (b.len - k) b.bytes ≡ (gap_text b start k)
  no_tail h =
      ap (λ m. take m b.bytes) (same h)
      ∙ front-eq
      ∙ sym (append-nil (take start (contents b)))
      ∙ ap (λ t. take start (contents b) ++ t)
          (sym (empty (drop (start + k) (contents b)) none_left))
    where
      same : b.len - k ≤ start → b.len - k ≡ start
      same h' = omega arith

      none_left : length (drop (start + k) (contents b)) ≡ 0
      none_left = omega (arith, length-drop (start + k) (contents b), length-take b.len b.bytes)

      empty : (xs : List ℕ) → length xs ≡ 0 → xs ≡ []
      empty [] e = refl
      empty (x ∷ xs) e = absurd (omega arith)

  -- The text behind the gap moved down onto it.
  moved_tail :
      (out : List ℕ)
      → start ≤ b.len - k
      → take (start + length tail_bytes) out ≡ take start b.bytes ++ tail_bytes
      → take (b.len - k) out ≡ (gap_text b start k)
  moved_tail out h e = ap (λ m. take m out) (same h) ∙ e ∙ ap₂ ◌++◌ front-eq tail_bytes-eq
    where
      same : start ≤ b.len - k → b.len - k ≡ start + length tail_bytes
      same h' = omega (arith, length-tail_bytes)

  gap_block : List ℕ → Block
  gap_block bytes = record b { len = b.len - k; bytes = bytes }

  gap_block-Holds :
      (out : List ℕ)
      → length out ≡ length b.bytes
      → Ends out (b.len - k) (gap_text b start k)
      → Holds (gap_block out) (gap_text b start k) b.ref
  unfolding gap_block
  gap_block-Holds out same e = record {
    shape = record {
      fits = omega (arith, v.fits);
      small = v.small;
      storage = omega (arith, v.storage);
    };
    ended = e.zero_at;
    counted = refl;
    text_is = e.text_at;
  }

  close_gap_lem : close_gap b start k ≡ shift_down b start k (b.len - k)
  unfolding close_gap
  close_gap_lem = ap (shift_down b start k) minus

  -- `close_gap` within the contents leaves exactly the other bytes, ended by a zero.
  pub close_gap-Holds :
      (b' : Block) × (close_gap b start k ≡ some b') × Holds b' (gap_text b start k) b.ref
  unfolding shift_down gap_block tail_bytes
  close_gap-Holds = elim (dec_lt start (b.len - k)) [
    | yes more ↦
        let (moved, w) =
          writes b.bytes start tail_bytes (omega (arith, length-tail_bytes, v.fits, v.storage)) in
        let (out, runs, whole, e) =
          ends moved (b.len - k) (gap_text b start k) (omega (arith, w.whole, v.fits, v.storage))
            (moved_tail moved (omega arith) w.front) in
        (
          gap_block out,
          rw close_gap_lem (rw (lt→ltb start (b.len - k) more, w.runs, runs, shift_down)),
          gap_block-Holds out (whole ∙ w.whole) e,
        )
    | no none_behind ↦
        let (out, runs, whole, e) =
          ends b.bytes (b.len - k) (gap_text b start k) (omega (arith, v.fits, v.storage))
            (no_tail (omega arith)) in
        (
          gap_block out,
          rw close_gap_lem (rw (le→ltb (b.len - k) start (omega arith), runs, shift_down)),
          gap_block-Holds out whole e,
        )
  ]
