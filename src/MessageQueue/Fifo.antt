-- ===== src/MessageQueue/Fifo.antt =====
-- What a mailbox promises: a first-in first-out queue of at most `limit` messages.
use node_lua.Common.{
  ℕ, ◌^◌, List, [], ◌∷◌, ◌++◌, Option, none, some, Bool, true, false, ltb, length, if◌then◌else◌,
}

-- A capacity above this one does not fit in the `uint32_t` that holds it.
abbrev pub limit : ℕ
limit = 2 ^ 31

pub data Op {ℓ} (A : Type ℓ) : Type ℓ where
  push_op : A → Op A
  pop_op : Op A

-- What the caller of one operation sees.
pub data Reply {ℓ} (A : Type ℓ) : Type ℓ where
  pushed : Bool → Reply A
  popped : Option A → Reply A

module _ {ℓ} {A : Type ℓ} where
  unfoldable pub push : List A → A → Bool × List A
  push xs m = if ltb (length xs) limit then (true, xs ++ (m ∷ [])) else (false, xs)

  unfoldable pub pop : List A → Option A × List A
  pop [] = (none, [])
  pop (x ∷ xs) = (some x, xs)

  unfoldable pub run : List A → List (Op A) → List (Reply A)
  run xs [] = []
  run xs (push_op m ∷ ops) = let (b, xs') = push xs m in pushed b ∷ run xs' ops
  run xs (pop_op ∷ ops) = let (o, xs') = pop xs in popped o ∷ run xs' ops
