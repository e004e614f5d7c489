-- ===== src/ContextQueue/Ops.antt =====
-- Each operation of a run queue is one on the list of contexts that it holds.
use node_lua.Common.{
  Apart, ℕ, suc, ◌+◌, ◌^◌, ◌<◌, ◌≡◌, refl, sym, subst, ◌∙◌, List, [], ◌∷◌, ◌++◌, Option, none, some,
  Bool, true, false, length, length-append, arith,
}
use node_lua.Common.{ne→==, ◌==◌, if◌then◌else◌, ◌≢◌, ap}
use node_lua.Common.Words.{add64}
use node_lua.ContextQueue.{
  Next, link, ContextQueue, append_one, push_one, append_many, push_many, int32_argument,
}
use node_lua.ContextQueue.Chain.{
  last_of_list, Distinct, Linked, Ends, Holds, AllApart, Distinct-append, last-Apart, Linked-link,
  Linked-link_last, Linked-append, last-append, last_some, unsome,
}

-- `xs` is empty.
abbrev pub is_nil : List ℕ → Bool
is_nil [] = true
is_nil (x ∷ xs) = false

AllApart-one : (c : ℕ) (xs : List ℕ) → Apart c xs → AllApart xs (c ∷ [])
AllApart-one c [] a = tt
AllApart-one c (x ∷ xs) a = ((λ e. a.0 (sym e), tt), AllApart-one c xs a.1)

AllApart-last : (xs ys : List ℕ) (t : ℕ) → AllApart xs ys → last_of_list xs ≡ some t → Apart t ys
AllApart-last [] ys t a e = absurd (cc)
AllApart-last (x ∷ []) ys t a e = subst (λ k. Apart k ys) (unsome e) a.0
AllApart-last (x ∷ z ∷ zs) ys t a e = AllApart-last (z ∷ zs) ys t a.1 e

-- A run `y ∷ ys` of contexts put behind the nonempty list `x ∷ xs` by a link at its last context.
module _ (next : Next) (q : ContextQueue) (x : ℕ) (xs : List ℕ) (y : ℕ) (ys : List ℕ)
    (v : Holds next q (x ∷ xs)) (ly : Linked next (y ∷ ys)) (dy : Distinct (y ∷ ys))
    (ey : Ends next (y ∷ ys)) (apart : AllApart (x ∷ xs) (y ∷ ys)) (t : ℕ)
    (e : last_of_list (x ∷ xs) ≡ some t) where
  back : Apart t (y ∷ ys)
  back = AllApart-last (x ∷ xs) (y ∷ ys) t apart e

  joined_end : Ends (link next t (some y)) ((x ∷ xs) ++ (y ∷ ys))
  joined_end t' e' = ground (arith, ey t', last-Apart t t' (y ∷ ys) back, last-append (x ∷ xs) y ys)

  joined :
      (n : ℕ)
      → n ≡ length (x ∷ xs) + length (y ∷ ys)
      → Holds
          (link next t (some y))
          (record q { tail = last_of_list (y ∷ ys); queue_count = n })
          ((x ∷ xs) ++ (y ∷ ys))
  joined n count = record {
    at_head = v.at_head;
    at_tail = sym (last-append (x ∷ xs) y ys);
    counted = count ∙ sym (length-append (x ∷ xs) (y ∷ ys));
    linked =
        Linked-append (link next t (some y)) (x ∷ xs) (y ∷ ys)
          (Linked-link_last next t (some y) (x ∷ xs) v.distinct e v.linked)
          (Linked-link next t (some y) (y ∷ ys) back ly) (λ t' e'. ground arith);
    ended = joined_end;
    distinct = Distinct-append (x ∷ xs) (y ∷ ys) v.distinct dy apart;
  }

-- A queue that holds `xs` holds them after a link of a context outside of it.
outside :
    (next : Next) (q : ContextQueue) (c : ℕ) (o : Option ℕ) (xs : List ℕ)
    → Apart c xs
    → Holds next q xs
    → Holds (link next c o) q xs
outside next q c o xs a v = record {
  at_head = v.at_head;
  at_tail = v.at_tail;
  counted = v.counted;
  linked = Linked-link next c o xs a v.linked;
  ended = λ t e. ground (arith, v.ended t, last-Apart c t xs a);
  distinct = v.distinct;
}

-- A push answers whether the semaphore is posted, which is when the queue was empty.
abbrev pub Pushed : List ℕ → List ℕ → Next × ContextQueue × Bool → Type 0
Pushed xs ys (next', q', wakeup) = Holds next' q' (xs ++ ys) × (wakeup ≡ is_nil xs)

append_many-Pushed :
    (next : Next) (q : ContextQueue) (xs : List ℕ) (y : ℕ) (ys : List ℕ) (t : ℕ) (o : Option ℕ)
    → Holds next q xs
    → Linked next (y ∷ ys)
    → Distinct (y ∷ ys)
    → Ends next (y ∷ ys)
    → AllApart xs (y ∷ ys)
    → last_of_list (y ∷ ys) ≡ some t
    → length xs + length (y ∷ ys) < 2 ^ 64
    → o ≡ last_of_list xs
    → Pushed xs (y ∷ ys) (append_many next q y t (length (y ∷ ys)) o)
unfolding append_many
append_many-Pushed next q [] y ys t none v ly dy ey apart e small at = (
  record {
    at_head = refl;
    at_tail = sym e;
    counted = refl;
    linked = ly;
    ended = ey;
    distinct = dy;
  },
  refl,
)
append_many-Pushed next q [] y ys t (some l) v ly dy ey apart e small at = absurd (cc)
append_many-Pushed next q (x ∷ xs) y ys t none v ly dy ey apart e small at =
    absurd (let (l, e') = last_some x xs in cc e')
append_many-Pushed next q (x ∷ xs) y ys t (some l) v ly dy ey apart e small at =
    (rw (← e) (joined next q x xs y ys v ly dy ey apart l (sym at) _ count), refl)
  where
    count : add64 q.queue_count (length (y ∷ ys)) ≡ length (x ∷ xs) + length (y ∷ ys)
    count = omega (arith, v.counted)

append_one_lem :
    (next : Next) (q : ContextQueue) (c : ℕ) (o : Option ℕ)
    → append_one next q c o ≡ append_many next q c c 1 o
unfolding append_one append_many
append_one_lem next q c none = refl
append_one_lem next q c (some t) = refl

link_same : (next : Next) (c : ℕ) (o : Option ℕ) → link next c o c ≡ o
link_same next c o = ground arith

-- `push_one` puts a context that is not in the queue behind those in it, and posts the semaphore
-- exactly when there were none, as long as the count stays below 2^64.
pub push_one-Pushed :
    (next : Next) (q : ContextQueue) (xs : List ℕ) (c : ℕ)
    → Holds next q xs
    → Apart c xs
    → suc (length xs) < 2 ^ 64
    → Pushed xs (c ∷ []) (push_one next q c)
unfolding push_one
push_one-Pushed next q xs c v a small = rw (append_one_lem (link next c none) q c q.tail) (
    append_many-Pushed (link next c none) q xs c [] c q.tail (outside next q c none xs a v) tt
      (tt, tt) (λ t e. subst (λ k. link next c none k ≡ none) (unsome e) (link_same next c none))
      (AllApart-one c xs a) refl (omega (arith, small)) v.at_tail)

Apart-of_last : (xs ys : List ℕ) (t : ℕ) → AllApart xs ys → last_of_list ys ≡ some t → Apart t xs
Apart-of_last [] ys t a e = tt
Apart-of_last (x ∷ xs) ys t a e =
    ((λ same. last-Apart x t ys a.0 e (sym same)), Apart-of_last xs ys t a.1 e)

int32_argument-small : (n : ℕ) → n < 2 ^ 31 → int32_argument n ≡ n
int32_argument-small n lt = ground arith

push_many-more :
    (next : Next) (q : ContextQueue) (h t n : ℕ)
    → n < 2 ^ 31
    → n ≢ 1
    → push_many next q h t n ≡ append_many (link next t none) q h t n q.tail
unfolding push_many
push_many-more next q h t n lt ne =
    ap (λ k. if k == 1 then push_one next q h else append_many (link next t none) q h t k q.tail)
      (int32_argument-small n lt)
    ∙ ap (λ b. if b then push_one next q h else append_many (link next t none) q h t n q.tail)
        (ne→== n 1 ne)

-- `push_many` puts a linked list of contexts, none of them in the queue, behind those in it, in
-- its order, and posts the semaphore exactly when there were none, as long as the list has fewer
-- than 2^31 contexts, so that its length is an `int32_t`, and the count stays below 2^64.
pub push_many-Pushed :
    (next : Next) (q : ContextQueue) (xs : List ℕ) (y : ℕ) (ys : List ℕ) (t : ℕ)
    → Holds next q xs
    → Linked next (y ∷ ys)
    → Distinct (y ∷ ys)
    → AllApart xs (y ∷ ys)
    → last_of_list (y ∷ ys) ≡ some t
    → length (y ∷ ys) < 2 ^ 31
    → length xs + length (y ∷ ys) < 2 ^ 64
    → Pushed xs (y ∷ ys) (push_many next q y t (length (y ∷ ys)))
unfolding push_many
push_many-Pushed next q xs y [] t v ly dy apart e few small =
    push_one-Pushed next q xs y v
      (subst (λ k. Apart k xs) (unsome (sym e)) (Apart-of_last xs (y ∷ []) t apart e))
      (omega (arith, small))
push_many-Pushed next q xs y (z ∷ zs) t v ly dy apart e few small =
    subst (λ r. Pushed xs (y ∷ z ∷ zs) r)
      (sym (push_many-more next q y t (suc (suc (length zs))) few (omega arith)))
      (append_many-Pushed (link next t none) q xs y (z ∷ zs) t q.tail
        (outside next q t none xs (Apart-of_last xs (y ∷ z ∷ zs) t apart e) v)
        (Linked-link_last next t none (y ∷ z ∷ zs) dy e ly) dy
        (λ t' e'.
          subst (λ k. link next t none k ≡ none) (unsome (sym e ∙ e')) (link_same next t none))
        apart e small v.at_tail)
