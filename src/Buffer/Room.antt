-- ===== src/Buffer/Room.antt =====
-- The capacity that a growing buffer asks for, and the two ways to a block that has it.
use node_lua.Common.{
  ℕ, ◌+◌, ◌-◌, ◌^◌, ◌≤◌, ◌<◌, ◌≡◌, refl, ◌∙◌, List, [], ◌++◌, some, get_elem?, length, take, drop,
  replicate, length-append, length-take, length-drop, length-replicate, arith,
}
use node_lua.Buffer.{gen_capacity, fresh_block, resized, copied, max_capacity}
use node_lua.Buffer.Heap.{Block}
use node_lua.Buffer.Bytes.{
  write_at-some, take-append, take-take, take_all, get_elem?-take, get_elem?-append_left,
}
use node_lua.Buffer.Blocks.{HasShape, contents, length-contents}

-- A nonzero answer of `buffer_gen_capacity` holds the bytes and one more, within the limit.
pub gen_capacity-fits :
    {b : Block} (n : ℕ)
    → HasShape b
    → n < 2 ^ 64
    → 0 < gen_capacity b n
    → (b.len + n ≤ gen_capacity b n) × (gen_capacity b n ≤ max_capacity)
unfolding gen_capacity
gen_capacity-fits n v small pos = ground arith

-- It answers 0 exactly where the bytes would reach the limit, or where there are none.
pub gen_capacity_zero :
    {b : Block} (n : ℕ)
    → HasShape b
    → n < 2 ^ 64
    → 0 < b.len + n
    → gen_capacity b n ≡ 0
    → max_capacity ≤ b.len + n
unfolding gen_capacity
gen_capacity_zero n v small pos e = ground arith

module _ (junk : ℕ) where
  pub fresh_block-HasShape : (c : ℕ) → c ≤ max_capacity → HasShape (fresh_block junk c)
  unfolding fresh_block
  fresh_block-HasShape c h = record {
    fits = omega arith;
    small = h;
    storage = length-replicate (c + 1) junk;
  }

  -- Its count of owners, its free space and its contents.
  pub fresh_block-fields :
      (c : ℕ)
      → ((fresh_block junk c).ref ≡ 1)
        × ((fresh_block junk c).cap - (fresh_block junk c).len ≡ c)
        × (contents (fresh_block junk c) ≡ [])
  unfolding fresh_block
  fresh_block-fields c = (refl, omega arith, refl)

  -- What a block becomes in a bigger allocation: the same contents.
  pub record Moved (b b' : Block) (c : ℕ) : Type 0 where
    pub shape : HasShape b'
    pub same_len : b'.len ≡ b.len
    pub new_cap : b'.cap ≡ c
    pub same : contents b' ≡ contents b

  pub resized-Moved :
      {b : Block} (c : ℕ) → HasShape b → b.len ≤ c → c ≤ max_capacity → Moved b (resized junk b c) c
  unfolding resized
  resized-Moved {b} c v fits h = record {
    shape = record {
      fits = fits;
      small = h;
      storage = omega (
        arith,
        length-append (take (c + 1) b.bytes) (replicate (c + 1 - length b.bytes) junk),
        length-take (c + 1) b.bytes,
        length-replicate (c + 1 - length b.bytes) junk,
      );
    };
    same_len = refl;
    new_cap = refl;
    same =
        take-append b.len (take (c + 1) b.bytes) (replicate (c + 1 - length b.bytes) junk)
          (omega (arith, length-take (c + 1) b.bytes, v.storage, v.fits))
        ∙ take-take b.len (c + 1) b.bytes (omega arith);
  }

  pub resized-ref : (b : Block) (c : ℕ) → (resized junk b c).ref ≡ b.ref
  unfolding resized
  resized-ref b c = refl

  -- `realloc` keeps the terminating zero.
  pub resized-ended :
      {b : Block} (c : ℕ)
      → HasShape b
      → b.len ≤ c
      → get_elem? b.bytes b.len ≡ some 0
      → get_elem? (resized junk b c).bytes b.len ≡ some 0
  unfolding resized
  resized-ended {b} c v fits e =
      get_elem?-append_left (take (c + 1) b.bytes) _ b.len
        (omega (arith, length-take (c + 1) b.bytes, v.storage, v.fits))
      ∙ get_elem?-take (c + 1) b.len b.bytes (omega arith)
      ∙ e

  pub copied-Moved :
      {b : Block} (c : ℕ)
      → HasShape b
      → b.len ≤ c
      → c ≤ max_capacity
      → (b' : Block) × (copied junk b c ≡ some b') × (b'.ref ≡ 1) × Moved b b' c
  unfolding copied fresh_block
  copied-Moved {b} c v fits h = (
    record { ref = 1; len = b.len; cap = c; bytes = image },
    rw (write_at-some (replicate (c + 1) junk) 0 (contents b) inside, copied),
    refl,
    record {
      shape = record {
        fits = fits;
        small = h;
        storage = omega (
          arith,
          length-append (contents b) (drop (0 + length (contents b)) (replicate (c + 1) junk)),
          length-contents v,
          length-drop (0 + length (contents b)) (replicate (c + 1) junk),
          length-replicate (c + 1) junk,
        );
      };
      same_len = refl;
      new_cap = refl;
      same =
          take-append b.len (contents b) _ (omega (arith, length-contents v))
          ∙ take_all b.len (contents b) (omega (arith, length-contents v));
    },
  )
    where
      inside : 0 + length (contents b) ≤ length (replicate (c + 1) junk)
      inside = omega (arith, length-contents v, length-replicate (c + 1) junk)

      image : List ℕ
      image = [] ++ (contents b ++ drop (0 + length (contents b)) (replicate (c + 1) junk))
