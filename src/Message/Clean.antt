-- ===== src/Message/Clean.antt =====
-- `message_clean` gives up what the message holds, and nothing else.
use native.Mathlib.Decide.{ℕ_discrete}
use node_lua.Common.{
  ℕ, zero, suc, ◌+◌, ◌<◌, ◌≤◌, ◌≡◌, refl, sym, ap, subst, ◌∙◌, Option, none, some, Bool, true,
  false, ◌==◌, if◌then◌else◌, arith, eq→==, ne→==,
}
use node_lua.Message.{
  Refs, put_refs, Data, Items, nil, boolean, userdata, number, integer, error, buffer, string,
  binary, tpack, shared, array, end, item, release_at, free_at, free_pointer, buffer_release,
  shared_release, with_data, free_after, message_clean, clean_items,
}

abbrev pub one_if : ℕ → Option ℕ → ℕ
one_if n none = 0
one_if n (some m) = if n == m then 1 else 0

-- How many references to block `n` a message holds, and how many of them are to blocks without a
-- counter.
unfoldable mutual
  pub held : ℕ → Data → ℕ
  held n (buffer p) = one_if n p
  held n (string p) = one_if n p
  held n (binary p) = one_if n p
  held n (tpack p) = one_if n p
  held n (shared p) = one_if n p
  held n (array none items) = 0
  held n (array (some m) items) = held_items n items + one_if n (some m)
  held n _ = 0

  pub held_items : ℕ → Items → ℕ
  held_items n end = 0
  held_items n (item d items) = held n d + held_items n items

unfoldable mutual
  pub plain : ℕ → Data → ℕ
  plain n (string p) = one_if n p
  plain n (binary p) = one_if n p
  plain n (tpack p) = one_if n p
  plain n (array none items) = 0
  plain n (array (some m) items) = plain_items n items + one_if n (some m)
  plain n _ = 0

  pub plain_items : ℕ → Items → ℕ
  plain_items n end = 0
  plain_items n (item d items) = plain n d + plain_items n items

mutual
  unfolding plain plain_items held held_items

  plain-le-held : (n : ℕ) (d : Data) → plain n d ≤ held n d
  plain-le-held n (buffer p) = omega arith
  plain-le-held n (string p) = omega arith
  plain-le-held n (binary p) = omega arith
  plain-le-held n (tpack p) = omega arith
  plain-le-held n (shared p) = omega arith
  plain-le-held n (array none items) = omega arith
  plain-le-held n (array (some m) items) = omega (arith, plain-le-held_items n items)
  plain-le-held n nil = omega arith
  plain-le-held n (boolean b) = omega arith
  plain-le-held n (userdata p) = omega arith
  plain-le-held n (number k) = omega arith
  plain-le-held n (integer k) = omega arith
  plain-le-held n (error k) = omega arith

  plain-le-held_items : (n : ℕ) (items : Items) → plain_items n items ≤ held_items n items
  plain-le-held_items n end = omega arith
  plain-le-held_items n (item d items) =
      omega (arith, plain-le-held n d, plain-le-held_items n items)

-- The count of a block with that many references.
abbrev pub keep : ℕ → Option ℕ
keep zero = none
keep (suc k) = some (suc k)

-- The memory counts so many references to each block.
abbrev pub Counts : Refs → (ℕ → ℕ) → Type 0
Counts refs f = (n : ℕ) → refs n ≡ keep (f n)

keep_eq : (a b : ℕ) → a ≡ b → keep a ≡ keep b
keep_eq a b e = ap keep e

-- The memory after one reference to `m` is given up.
put-Counts :
    (refs : Refs) (m : ℕ) (others : ℕ → ℕ)
    → Counts refs (λ n. one_if n (some m) + others n)
    → Counts (put_refs refs m (keep (others m))) others
put-Counts refs m others counts n = elim (ℕ_discrete n m) [
  | yes same ↦ rw (eq→== n m same) (ap (λ k. keep (others k)) (sym same))
  | no other ↦
      rw (ne→== n m other)
        (counts n ∙ rw (ne→== n m other) (keep_eq (0 + others n) (others n) (omega arith)))
]

-- What the memory counts for the block itself.
at_block :
    (refs : Refs) (m : ℕ) (others : ℕ → ℕ)
    → Counts refs (λ n. one_if n (some m) + others n)
    → refs m ≡ keep (suc (others m))
at_block refs m others counts =
    counts m ∙ rw (eq→== m m refl) (keep_eq (1 + others m) (suc (others m)) (omega arith))

-- A reference is released; the others stay.
released :
    (refs : Refs) (m : ℕ) (others : ℕ → ℕ)
    → Counts refs (λ n. one_if n (some m) + others n)
    → (last : Bool) × (release_at (refs m) m refs ≡ some (last, put_refs refs m (keep (others m))))
unfolding release_at
released refs m others counts =
    let (last, run) = by_count (others m) in
    (last, ap (λ o. release_at o m refs) (at_block refs m others counts) ∙ run)
  where
    by_count :
        (k : ℕ)
        → (last : Bool) × (release_at (keep (suc k)) m refs ≡ some (last, put_refs refs m (keep k)))
    by_count zero = (true, refl)
    by_count (suc k) = (false, refl)

NullCounts : (refs : Refs) (others : ℕ → ℕ) → Counts refs (λ n. 0 + others n) → Counts refs others
NullCounts refs others counts n = counts n ∙ keep_eq (0 + others n) (others n) (omega arith)

-- What cleaning leads to: no fault, and the memory counts what others hold.
Frees : (ℕ → ℕ) → Option Refs → Type 0
Frees others result = (refs' : Refs) × (result ≡ some refs') × Counts refs' others

free_pointer-Frees :
    (p : Option ℕ) (refs : Refs) (others : ℕ → ℕ)
    → Counts refs (λ n. one_if n p + others n)
    → ((n : ℕ) → 0 < one_if n p → one_if n p + others n ≡ 1)
    → Frees others (free_pointer p refs)
unfolding free_pointer Frees
free_pointer-Frees none refs others counts single = (refs, refl, NullCounts refs others counts)
free_pointer-Frees (some m) refs others counts single = (
  put_refs refs m (keep (others m)),
  ap (λ o. free_at o m refs)
        (at_block refs m others counts ∙ keep_eq (suc (others m)) 1 (omega (arith, alone)))
      ∙ ap (λ k. some (put_refs refs m (keep k))) (sym alone),
  put-Counts refs m others counts,
)
  where
    alone : others m ≡ 0
    alone =
        let one =
          subst (λ b. 0 < (if b then 1 else 0) → (if b then 1 else 0) + others m ≡ 1)
            (eq→== m m refl) (single m) (omega arith) in
        omega (arith, one)

shared_release-Frees :
    (p : Option ℕ) (refs : Refs) (others : ℕ → ℕ)
    → Counts refs (λ n. one_if n p + others n)
    → Frees others (shared_release p refs)
unfolding shared_release Frees
shared_release-Frees none refs others counts = (refs, refl, NullCounts refs others counts)
shared_release-Frees (some m) refs others counts =
    let (last, run) = released refs m others counts in
    (
      put_refs refs m (keep (others m)),
      ap {B = Option Refs} (λ o. elim o [ none ↦ none | some (last', refs') ↦ some refs' ]) run,
      put-Counts refs m others counts,
    )

-- And with the data that it leaves.
Cleans : (ℕ → ℕ) → Option (Data × Refs) → Type 0
Cleans others result =
    (d : Data) × (refs' : Refs) × (result ≡ some (d, refs')) × Counts refs' others

with_data-Cleans :
    (d : Data) (others : ℕ → ℕ) (o : Option Refs) → Frees others o → Cleans others (with_data d o)
unfolding Frees Cleans
with_data-Cleans d others o (refs', run, counts) = (d, refs', ap (with_data d) run, counts)

buffer_release-Cleans :
    (p : Option ℕ) (refs : Refs) (others : ℕ → ℕ)
    → Counts refs (λ n. one_if n p + others n)
    → Cleans others (buffer_release p refs)
unfolding buffer_release Cleans
buffer_release-Cleans none refs others counts =
    (buffer none, refs, refl, NullCounts refs others counts)
buffer_release-Cleans (some m) refs others counts =
    let (last, run) = released refs m others counts in
    (
      left last,
      put_refs refs m (keep (others m)),
      ap {B = Option (Data × Refs)} after run ∙ which last,
      put-Counts refs m others counts,
    )
  where
    left : Bool → Data
    left true = buffer none
    left false = buffer (some m)

    after : Option (Bool × Refs) → Option (Data × Refs)
    after o = elim o [
      | none ↦ none
      | some (true, refs') ↦ some (buffer none, refs')
      | some (false, refs') ↦ some (buffer (some m), refs')
    ]

    which :
        (last : Bool)
        → after (some (last, put_refs refs m (keep (others m))))
          ≡ some (left last, put_refs refs m (keep (others m)))
    which true = refl
    which false = refl

-- Blocks without a counter have one reference: that of the message.
abbrev pub IsSingle : (ℕ → ℕ) → (ℕ → ℕ) → Type 0
IsSingle plains counted = (n : ℕ) → 0 < plains n → counted n ≡ 1

recount : {refs : Refs} (f g : ℕ → ℕ) → ((n : ℕ) → f n ≡ g n) → Counts refs f → Counts refs g
recount f g same counts n = counts n ∙ keep_eq (f n) (g n) (same n)

free_after-Frees :
    (m : ℕ) (others : ℕ → ℕ) (o : Option Refs)
    → Frees (λ n. one_if n (some m) + others n) o
    → ((n : ℕ) → 0 < one_if n (some m) → one_if n (some m) + others n ≡ 1)
    → Frees others (free_after (some m) o)
unfolding Frees
free_after-Frees m others o (refs', run, counts) single =
    let (refs'', run', counts') = free_pointer-Frees (some m) refs' others counts single in
    (refs'', ap (free_after (some m)) run ∙ run', counts')

mutual
  unfolding message_clean clean_items held held_items plain plain_items Frees Cleans

  cleans :
      (d : Data) (refs : Refs) (others : ℕ → ℕ)
      → Counts refs (λ n. held n d + others n)
      → IsSingle (λ n. plain n d) (λ n. held n d + others n)
      → Cleans others (message_clean d refs)
  cleans nil refs others counts single = (nil, refs, refl, NullCounts refs others counts)
  cleans (boolean b) refs others counts single =
      (boolean b, refs, refl, NullCounts refs others counts)
  cleans (userdata p) refs others counts single =
      (userdata p, refs, refl, NullCounts refs others counts)
  cleans (number k) refs others counts single =
      (number k, refs, refl, NullCounts refs others counts)
  cleans (integer k) refs others counts single =
      (integer k, refs, refl, NullCounts refs others counts)
  cleans (error k) refs others counts single = (error k, refs, refl, NullCounts refs others counts)
  cleans (buffer p) refs others counts single = buffer_release-Cleans p refs others counts
  cleans (shared p) refs others counts single =
      with_data-Cleans (shared none) others (shared_release p refs)
        (shared_release-Frees p refs others counts)
  cleans (string p) refs others counts single =
      with_data-Cleans (string none) others (free_pointer p refs)
        (free_pointer-Frees p refs others counts single)
  cleans (binary p) refs others counts single =
      with_data-Cleans (binary none) others (free_pointer p refs)
        (free_pointer-Frees p refs others counts single)
  cleans (tpack p) refs others counts single =
      with_data-Cleans (tpack none) others (free_pointer p refs)
        (free_pointer-Frees p refs others counts single)
  cleans (array none items) refs others counts single =
      (array none items, refs, refl, NullCounts refs others counts)
  cleans (array (some m) items) refs others counts single =
      with_data-Cleans (array none end) others (free_after (some m) (clean_items items refs)) (
        free_after-Frees m others (clean_items items refs)
          (cleans_items items refs (λ n. one_if n (some m) + others n)
            (recount (λ n. held_items n items + one_if n (some m) + others n)
              (λ n. held_items n items + (one_if n (some m) + others n)) (λ n. omega arith) counts)
            (λ n pos. omega (arith, single n (omega (arith, pos)))))
          (λ n pos. omega (arith, pos, single n (omega (arith, pos)))))

  cleans_items :
      (items : Items) (refs : Refs) (others : ℕ → ℕ)
      → Counts refs (λ n. held_items n items + others n)
      → IsSingle (λ n. plain_items n items) (λ n. held_items n items + others n)
      → Frees others (clean_items items refs)
  cleans_items end refs others counts single = (refs, refl, NullCounts refs others counts)
  cleans_items (item d items) refs others counts single =
      let (d', refs', run, counts') =
        cleans d refs (λ n. held_items n items + others n)
          (recount (λ n. held n d + held_items n items + others n)
            (λ n. held n d + (held_items n items + others n)) (λ n. omega arith) counts)
          (λ n pos. omega (arith, single n (omega (arith, pos)))) in
      let (refs'', run', counts'') =
        cleans_items items refs' others counts' (λ n pos.
          omega (arith, single n (omega (arith, pos)), plain-le-held_items n items, pos)) in
      (
        refs'',
        ap {B = Option Refs} (λ o. elim o [ none ↦ none | some (x, r) ↦ clean_items items r ]) run
            ∙ run',
        counts'',
      )

-- `message_clean` gives up each reference that a message holds, in nested arrays too, exactly once and
-- without a fault: in memory that counts the references of the message and those of others, it leaves
-- the count of the others, and free is what no other holds. Strings and the like, which have no
-- counter, must be held by this message alone and once.
pub message_clean-Counts :
    (d : Data) (refs : Refs) (others : ℕ → ℕ)
    → Counts refs (λ n. held n d + others n)
    → IsSingle (λ n. plain n d) (λ n. held n d + others n)
    → (d' : Data) × (refs' : Refs) × (message_clean d refs ≡ some (d', refs')) × Counts refs' others
unfolding Cleans
message_clean-Counts d refs others counts single = cleans d refs others counts single
