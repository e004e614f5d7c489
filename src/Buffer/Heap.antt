-- ===== src/Buffer/Heap.antt =====
-- The heap that holds the blocks of buffers, and computations over it.
use node_lua.Common.{
  ℕ, ◌+◌, ◌≡◌, ◌≢◌, arith, List, ◌++◌, Option, none, some, ◌==◌, leb, if◌then◌else◌, length, take,
  drop,
}

-- `buffer_data_t`, with the `m_cap + 1` bytes behind it. All numbers are those of the bit patterns.
pub record Block : Type 0 where
  pub ref : ℕ
  pub len : ℕ
  pub cap : ℕ
  pub bytes : List ℕ

-- `next` is an address not handed out yet.
pub record Heap : Type 0 where
  pub cell : ℕ → Option Block
  pub next : ℕ

abbrev pub update : (ℕ → Option Block) → ℕ → Option Block → ℕ → Option Block
update f p v r = if r == p then v else f r

-- `buffer_t`
abbrev pub Ptr : Type 0
Ptr = Option ℕ

-- What a computation answers and leaves behind, or a fault.
abbrev pub Outcome : Type 0 → Type 0
Outcome R = Option (R × Heap)

abbrev pub M : Type 0 → Type 0
M R = Heap → Outcome R

abbrev pub lift : {R : Type 0} → Option R → M R
lift none h = none
lift (some r) h = some (r, h)

abbrev pub pure : {R : Type 0} → R → M R
pure r h = some (r, h)

infixl 5 ◌>>=◌ ◌>>◌
abbrev pub ◌>>=◌ : {R S : Type 0} → M R → (R → M S) → M S
◌>>=◌ first rest h = elim (first h) [ some (r, h') ↦ rest r h' | none ↦ none ]

abbrev pub ◌>>◌ : {R S : Type 0} → M R → M S → M S
first >> rest = first >>= λ _. rest

abbrev pub load : ℕ → M Block
load p h = elim (h.cell p) [ none ↦ none | some b ↦ some (b, h) ]

abbrev pub store : ℕ → Block → M (Unit {0})
store p b h = elim (h.cell p) [
  | none ↦ none
  | some _ ↦ some (tt, record h { cell = update h.cell p (some b) })
]

abbrev pub free : ℕ → M (Unit {0})
free p h = elim (h.cell p) [
  | none ↦ none
  | some _ ↦ some (tt, record h { cell = update h.cell p none })
]

abbrev pub alloc : Block → M ℕ
alloc b h = some (h.next, record h { next = h.next + 1; cell = update h.cell h.next (some b) })

-- `memmove(dst + off, src, n)` within a block; a write past its end is a fault.
unfoldable pub write_at : List ℕ → ℕ → List ℕ → Option (List ℕ)
write_at dst off src =
    if leb (off + length src) (length dst)
    then some (take off dst ++ (src ++ drop (off + length src) dst))
    else none

pub update_self : (f : ℕ → Option Block) (p : ℕ) (o : Option Block) → update f p o p ≡ o
update_self f p o = ground arith

pub update_ne :
    (f : ℕ → Option Block) (p : ℕ) (o : Option Block) (r : ℕ) → r ≢ p → update f p o r ≡ f r
update_ne f p o r ne = ground arith
