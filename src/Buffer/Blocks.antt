-- ===== src/Buffer/Blocks.antt =====
-- One block: its invariant, the bytes that a client sees, and what a store at the end does to them.
use native.Mathlib.Decide.{dec_lt}
use node_lua.Common.{
  subst, ◌==◌, Bool-cases, inl, inr, ℕ, ◌+◌, ◌-◌, ◌^◌, ◌≤◌, ◌<◌, ◌≡◌, refl, ap, sym, ◌∙◌, List, [],
  ◌∷◌, ◌++◌, append_assoc, Option, some, none, length, take, drop, get_elem?, length-append,
  length-take, length-drop, arith,
}
use node_lua.Common.Words.{add32}
use node_lua.Buffer.{put_bytes, max_capacity}
use node_lua.Buffer.Heap.{Block, Heap, update}
use node_lua.Buffer.Bytes.{write_at-some, take-append, drop-append_more, drop-drop, take_all}

-- The `m_len` bytes that a buffer stands for.
abbrev pub contents : Block → List ℕ
contents b = take b.len b.bytes

-- The sizes of a block fit together.
pub record HasShape (b : Block) : Type 0 where
  pub fits : b.len ≤ b.cap
  pub small : b.cap ≤ max_capacity
  pub storage : length b.bytes ≡ b.cap + 1

-- A block as the operations leave it: a zero byte ends its contents, and it has an owner.
pub record IsBlock (b : Block) : Type 0 where
  pub shape : HasShape b
  pub ended : get_elem? b.bytes b.len ≡ some 0
  pub owned : 0 < b.ref
  pub counted : b.ref < 2 ^ 64

-- The count of owners has no part in the sizes.
pub with_ref : {b : Block} (r : ℕ) → HasShape b → HasShape (record b { ref = r })
with_ref r v = record { fits = v.fits; small = v.small; storage = v.storage }

pub length-contents : {b : Block} → HasShape b → length (contents b) ≡ b.len
length-contents {b} v = omega (arith, length-take b.len b.bytes, v.fits, v.storage)

get_elem?-append :
    (xs : List ℕ) (y : ℕ) (ys : List ℕ) → get_elem? (xs ++ (y ∷ ys)) (length xs) ≡ some y
get_elem?-append [] y ys = refl
get_elem?-append (x ∷ xs) y ys = get_elem?-append xs y ys

-- What `put_bytes b bytes` makes of the block `b`.
pub record Stores (b : Block) (bytes : List ℕ) (b' : Block) : Type 0 where
  pub shape : HasShape b'
  pub ended : get_elem? b'.bytes b'.len ≡ some 0
  pub kept_ref : b'.ref ≡ b.ref
  pub kept_cap : b'.cap ≡ b.cap
  pub grown : contents b' ≡ contents b ++ bytes

-- The bytes of a block after the two writes of `put_bytes`.
abbrev put_result : Block → List ℕ → List ℕ
put_result b bytes = (contents b ++ bytes) ++ (0 ∷ drop (b.len + length bytes + 1) b.bytes)

module _ {b : Block} (bytes : List ℕ) (v : HasShape b) (free : length bytes ≤ b.cap - b.len) where
  length-written : length (contents b ++ bytes) ≡ b.len + length bytes
  length-written = omega (arith, length-append (contents b) bytes, length-contents v)

  stored : List ℕ
  stored = take b.len b.bytes ++ (bytes ++ drop (b.len + length bytes) b.bytes)

  stored-eq : stored ≡ (contents b ++ bytes) ++ drop (b.len + length bytes) b.bytes
  unfolding stored
  stored-eq = sym (append_assoc (contents b) bytes (drop (b.len + length bytes) b.bytes))

  length-stored : length stored ≡ b.cap + 1
  length-stored = omega (
    arith,
    ap length stored-eq,
    length-append (contents b ++ bytes) (drop (b.len + length bytes) b.bytes),
    length-written,
    length-drop (b.len + length bytes) b.bytes,
    v.storage,
    v.fits,
  )

  stored-take : take (b.len + length bytes) stored ≡ contents b ++ bytes
  stored-take = rw stored-eq (
      take-append (b.len + length bytes) (contents b ++ bytes) _ (omega (arith, length-written))
      ∙ take_all _ (contents b ++ bytes) (omega (arith, length-written)))

  stored-drop : drop (b.len + length bytes + 1) stored ≡ drop (b.len + length bytes + 1) b.bytes
  stored-drop =
      rw (stored-eq, ← length-written)
        (drop-append_more 1 (contents b ++ bytes) (drop (length (contents b ++ bytes)) b.bytes)
          ∙ drop-drop 1 (length (contents b ++ bytes)) b.bytes)

  put_bytes_writes :
      put_bytes b bytes ≡ some (record b { len = b.len + length bytes; bytes = put_result b bytes })
  unfolding put_bytes stored
  put_bytes_writes =
      rw
        (
          write_at-some b.bytes b.len bytes (omega (arith, v.fits, v.storage)),
          whole,
          write_at-some stored (b.len + length bytes) (0 ∷ [])
              (omega (arith, length-stored, v.fits)),
          stored-take,
          stored-drop,
          put_bytes,
        )
        (rw whole)
    where
      whole : add32 b.len (length bytes) ≡ b.len + length bytes
      whole = omega (arith, v.fits, v.small)

  -- A store that fits appends its bytes and ends them with a zero.
  pub put_bytes-Stores : (b' : Block) × (put_bytes b bytes ≡ some b') × Stores b bytes b'
  put_bytes-Stores = (
    record b { len = b.len + length bytes; bytes = put_result b bytes },
    put_bytes_writes,
    record {
      shape = record {
        fits = omega (arith, v.fits);
        small = v.small;
        storage = omega (
          arith,
          length-append (contents b ++ bytes) (0 ∷ drop (b.len + length bytes + 1) b.bytes),
          length-written,
          length-drop (b.len + length bytes + 1) b.bytes,
          v.storage,
          v.fits,
        );
      };
      ended = rw (← length-written) (
          get_elem?-append (contents b ++ bytes) 0
            (drop (length (contents b ++ bytes) + 1) b.bytes));
      kept_ref = refl;
      kept_cap = refl;
      grown = rw (← length-written) (
          take-append _ (contents b ++ bytes) _ (omega arith)
          ∙ take_all _ (contents b ++ bytes) (omega arith));
    },
  )

-- A heap as the operations leave it: cells beyond `next` are unused, the others hold valid blocks.
pub record IsHeap (h : Heap) : Type 0 where
  pub fresh : (r : ℕ) → h.next ≤ r → h.cell r ≡ none
  pub blocks : (r : ℕ) (b : Block) → h.cell r ≡ some b → IsBlock b

clash : {o : Option Block} {b : Block} → o ≡ none → o ≡ some b → ⊥
clash e f = cc

unsome : {b c : Block} → some b ≡ some c → b ≡ c
unsome e = cc

-- An allocated address is below `next`.
pub allocated-lt : {h : Heap} (p : ℕ) (b : Block) → IsHeap h → h.cell p ≡ some b → p < h.next
allocated-lt {h} p b v at = elim (dec_lt p h.next) [
  | yes lt ↦ lt
  | no ge ↦ absurd (clash (v.fresh p (omega arith)) at)
]

update-blocks :
    {h : Heap} (p : ℕ) (o : Option Block)
    → IsHeap h
    → ((c : Block) → o ≡ some c → IsBlock c)
    → (r : ℕ) (c : Block) → update h.cell p o r ≡ some c
    → IsBlock c
update-blocks {h} p o v new r c e = elim (Bool-cases (r == p)) [
  | inl here ↦ new c (ground arith)
  | inr there ↦ v.blocks r c (ground arith)
]

pub store-IsHeap :
    {h : Heap} (p : ℕ) (b b' : Block)
    → IsHeap h
    → h.cell p ≡ some b
    → IsBlock b'
    → IsHeap (record h { cell = update h.cell p (some b') })
store-IsHeap {h} p b b' v at w = record {
  fresh = λ r le. ground (arith, v.fresh r, allocated-lt p b v at);
  blocks = update-blocks p (some b') v (λ c e. subst IsBlock (unsome e) w);
}

pub free-IsHeap : {h : Heap} (p : ℕ) → IsHeap h → IsHeap (record h { cell = update h.cell p none })
free-IsHeap {h} p v = record {
  fresh = λ r le. ground (arith, v.fresh r);
  blocks = update-blocks p none v (λ c e. cc);
}

pub alloc-IsHeap :
    {h : Heap} (b : Block)
    → IsHeap h
    → IsBlock b
    → IsHeap (record h { next = h.next + 1; cell = update h.cell h.next (some b) })
alloc-IsHeap {h} b v w = record {
  fresh = λ r le. ground (arith, v.fresh r);
  blocks = update-blocks h.next (some b) v (λ c e. subst IsBlock (unsome e) w);
}
