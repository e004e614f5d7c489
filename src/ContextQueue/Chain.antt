-- ===== src/ContextQueue/Chain.antt =====
-- A run queue that stands for a list of contexts.
use node_lua.Common.{
  Apart, ℕ, ◌≡◌, ◌≢◌, refl, List, [], ◌∷◌, ◌++◌, Option, none, some, length, arith,
}
use node_lua.ContextQueue.{Next, link, ContextQueue}

abbrev pub first_of_list : List ℕ → Option ℕ
first_of_list [] = none
first_of_list (x ∷ xs) = some x

abbrev pub last_of_list : List ℕ → Option ℕ
last_of_list [] = none
last_of_list (x ∷ []) = some x
last_of_list (x ∷ y ∷ ys) = last_of_list (y ∷ ys)

pub unsome : {a b : ℕ} → some a ≡ some b → a ≡ b
unsome e = cc

abbrev pub Distinct : List ℕ → Type 0
Distinct [] = Unit {0}
Distinct (x ∷ xs) = Apart x xs × Distinct xs

-- Each context of the list is linked to the one behind it.
abbrev pub Linked : Next → List ℕ → Type 0
Linked next [] = Unit {0}
Linked next (x ∷ []) = Unit {0}
Linked next (x ∷ y ∷ ys) = (next x ≡ some y) × Linked next (y ∷ ys)

-- The last one is linked to nothing.
abbrev pub Ends : Next → List ℕ → Type 0
Ends next xs = (t : ℕ) → last_of_list xs ≡ some t → next t ≡ none

-- The queue `q` holds the contexts `xs` in this order.
pub record Holds (next : Next) (q : ContextQueue) (xs : List ℕ) : Type 0 where
  pub at_head : q.head ≡ first_of_list xs
  pub at_tail : q.tail ≡ last_of_list xs
  pub counted : q.queue_count ≡ length xs
  pub linked : Linked next xs
  pub ended : Ends next xs
  pub distinct : Distinct xs

pub Apart-append : (c : ℕ) (xs ys : List ℕ) → Apart c xs → Apart c ys → Apart c (xs ++ ys)
Apart-append c [] ys a b = b
Apart-append c (x ∷ xs) ys a b = (a.0, Apart-append c xs ys a.1 b)

-- Every context of `ys` stands apart from `xs`.
abbrev pub AllApart : List ℕ → List ℕ → Type 0
AllApart [] ys = Unit {0}
AllApart (x ∷ xs) ys = Apart x ys × AllApart xs ys

pub Distinct-append :
    (xs ys : List ℕ) → Distinct xs → Distinct ys → AllApart xs ys → Distinct (xs ++ ys)
Distinct-append [] ys dx dy a = dy
Distinct-append (x ∷ xs) ys dx dy a =
    (Apart-append x xs ys dx.0 a.0, Distinct-append xs ys dx.1 dy a.1)

pub last-Apart : (c t : ℕ) (xs : List ℕ) → Apart c xs → last_of_list xs ≡ some t → t ≢ c
last-Apart c t [] a e same = cc
last-Apart c t (x ∷ []) a e same = a.0 (ground arith)
last-Apart c t (x ∷ y ∷ ys) a e same = last-Apart c t (y ∷ ys) a.1 e same

-- A link of a context outside the list changes no link in it.
pub Linked-link :
    (next : Next) (c : ℕ) (o : Option ℕ) (xs : List ℕ)
    → Apart c xs
    → Linked next xs
    → Linked (link next c o) xs
Linked-link next c o [] a l = tt
Linked-link next c o (x ∷ []) a l = tt
Linked-link next c o (x ∷ y ∷ ys) a l = (ground arith, Linked-link next c o (y ∷ ys) a.1 l.1)

-- Nor does a link of its last context.
pub Linked-link_last :
    (next : Next) (t : ℕ) (o : Option ℕ) (xs : List ℕ)
    → Distinct xs
    → last_of_list xs ≡ some t
    → Linked next xs
    → Linked (link next t o) xs
Linked-link_last next t o [] d e l = tt
Linked-link_last next t o (x ∷ []) d e l = tt
Linked-link_last next t o (x ∷ y ∷ ys) d e l =
    (ground (arith, last-Apart x t (y ∷ ys) d.0 e), Linked-link_last next t o (y ∷ ys) d.1 e l.1)

-- Two linked lists, the last of the one linked to the first of the other.
pub Linked-append :
    (next : Next) (xs ys : List ℕ)
    → Linked next xs
    → Linked next ys
    → ((t : ℕ) → last_of_list xs ≡ some t → next t ≡ first_of_list ys)
    → Linked next (xs ++ ys)
Linked-append next [] ys lx ly j = ly
Linked-append next (x ∷ []) [] lx ly j = tt
Linked-append next (x ∷ []) (y ∷ ys) lx ly j = (j x refl, ly)
Linked-append next (x ∷ z ∷ zs) ys lx ly j = (lx.0, Linked-append next (z ∷ zs) ys lx.1 ly j)

pub last-append :
    (xs : List ℕ) (y : ℕ) (ys : List ℕ) → last_of_list (xs ++ (y ∷ ys)) ≡ last_of_list (y ∷ ys)
last-append [] y ys = refl
last-append (x ∷ []) y ys = refl
last-append (x ∷ z ∷ zs) y ys = last-append (z ∷ zs) y ys

pub first-append : (x : ℕ) (xs ys : List ℕ) → first_of_list ((x ∷ xs) ++ ys) ≡ some x
first-append x xs ys = refl

pub last_some : (x : ℕ) (xs : List ℕ) → (t : ℕ) × (last_of_list (x ∷ xs) ≡ some t)
last_some x [] = (x, refl)
last_some x (y ∷ ys) = last_some y ys
