-- ===== src/MessageQueue/Inv.antt =====
-- The representation invariant of `message_queue_t`: the capacity is a power of two, the indices
-- are in range, and the tail is where the messages end. Every operation keeps it.
use native.Mathlib.Nat.{zero-add, mod_self, mod-add-mod, mod-eq_of_lt, mod-lt, pow-suc}
use native.Mathlib.Decide.{dec_lt}
use node_lua.Common.{
  ℕ, zero, suc, ◌+◌, ◌*◌, ◌%◌, ◌^◌, ◌≤◌, ◌<◌, ◌==◌, ◌≡◌, refl, ap, ◌∙◌, length, length-set,
  length-replicate, ltb, lt→ltb, ltb→lt, le→ltb, Bool-cases, inl, inr, arith,
}
use node_lua.Common.Bits.{pow_pos, pow_mono}
use node_lua.Common.Words.{add32, sub32, shl32}
use node_lua.MessageQueue.{
  MessageQueue, default_mq_size, init, copy_from, expand_queue, advance, store_tail, pop,
}

pub record IsValid {ℓ} {A : Type ℓ} (q : MessageQueue A) : Type 0 where
  pub log : ℕ
  pub power : q.cap ≡ 2 ^ log
  pub small : log ≤ 31
  pub storage : length q.queue ≡ q.cap
  pub head_in : q.head < q.cap
  pub size_in : q.size ≤ q.cap
  pub tail_at : q.tail ≡ (q.head + q.size) % q.cap

module _ {ℓ} {A : Type ℓ} {q : MessageQueue A} (v : IsValid q) where
  pub cap-le : q.cap ≤ 2 ^ 31
  cap-le = omega (arith, v.power, pow_mono v.log 31 v.small)

  pub cap_pos : 0 < q.cap
  cap_pos = omega (arith, v.power, pow_pos v.log)

  -- Below 2^31 there is room to double.
  pub log-lt : q.cap < 2 ^ 31 → v.log < 31
  log-lt h = elim (dec_lt v.log 31) [
    | yes lt ↦ lt
    | no ge ↦ absurd (omega (arith, v.power, pow_mono 31 v.log (omega arith)))
  ]

-- Without a wrap `advance` is the next index modulo the capacity.
pub advance-mod : (c i : ℕ) → i < c → c ≤ 2 ^ 31 → advance c i ≡ (i + 1) % c
unfolding advance
advance-mod c i lt small = elim (Bool-cases (i + 1 == c)) [
  | inl e ↦ ground (arith, mod_self c)
  | inr e ↦ ground (arith, mod-eq_of_lt {n = i + 1} {m = c})
]

-- A step of the tail goes with a step of the size.
tail_step :
    (c h n t : ℕ) → t ≡ (h + n) % c → t < c → c ≤ 2 ^ 31 → n < c → advance c t ≡ (h + add32 n 1) % c
tail_step c h n t e lt small size =
    advance-mod c t lt small ∙ rw (e, mod-add-mod) (ap (λ k. k % c) (omega arith))

-- A step of the head is undone by one of the size.
head_step :
    (c h n : ℕ) → h < c → c ≤ 2 ^ 31 → 0 < n → n ≤ c → (h + n) % c ≡ (advance c h + sub32 n 1) % c
head_step c h n lt small pos size =
    rw (advance-mod c h lt small, mod-add-mod) (ap (λ k. k % c) (omega arith))

module _ {ℓ} {A : Type ℓ} (blank : A) where
  -- A new queue is valid.
  pub init-IsValid : IsValid (init blank)
  unfolding init
  init-IsValid = record {
    log = 6;
    power = refl;
    small = omega arith;
    storage = length-replicate default_mq_size blank;
    head_in = omega arith;
    size_in = omega arith;
    tail_at = omega arith;
  }

  pub length-copy_from :
      (q : MessageQueue A) (rounds i : ℕ) (new : _)
      → length (copy_from blank q rounds i new) ≡ length new
  unfolding copy_from
  length-copy_from q zero i new = refl
  length-copy_from q (suc rounds) i new =
      length-copy_from q rounds (add32 i 1) _ ∙ length-set new i _

  -- The capacity after a successful expansion.
  pub shl32-cap : {q : MessageQueue A} → IsValid q → q.cap < 2 ^ 31 → shl32 q.cap 1 ≡ q.cap * 2
  shl32-cap v h = omega arith

  -- `expand_queue` keeps the invariant, whether it grows the ring or not.
  pub expand_queue-IsValid : {q : MessageQueue A} → IsValid q → IsValid (expand_queue blank q).1
  unfolding expand_queue
  expand_queue-IsValid {q} v = elim (dec_lt q.cap (2 ^ 31)) [
    | yes room ↦ rw (lt→ltb q.cap (shl32 q.cap 1) (omega (arith, cap_pos v))) (record {
      log = suc v.log;
      power = omega (arith, v.power, pow-suc 2 v.log);
      small = log-lt v room;
      storage = length-copy_from q q.size 0 _ ∙ length-replicate _ blank;
      head_in = omega (arith, cap_pos v);
      size_in = omega (arith, cap_pos v);
      tail_at =
          rw (zero-add, mod-eq_of_lt {n = q.size} {m = shl32 q.cap 1} (omega (arith, cap_pos v)));
    })
    | no full ↦ rw (le→ltb (shl32 q.cap 1) q.cap (omega (arith, cap-le v))) v
  ]

module _ {ℓ} {A : Type ℓ} where
  pub tail_in : {q : MessageQueue A} → IsValid q → q.tail < q.cap
  tail_in {q} v = omega (arith, cap_pos v, mod-lt (q.head + q.size) {m = q.cap} (cap_pos v))

  pub store_tail-IsValid :
      {q : MessageQueue A} (m : A) → IsValid q → q.size < q.cap → IsValid (store_tail q m)
  unfolding store_tail
  store_tail-IsValid {q} m v h = record {
    log = v.log;
    power = v.power;
    small = v.small;
    storage = length-set q.queue q.tail m ∙ v.storage;
    head_in = v.head_in;
    size_in = omega (arith, cap-le v);
    tail_at = tail_step q.cap q.head q.size q.tail v.tail_at (tail_in v) (cap-le v) h;
  }

module _ {ℓ} {A : Type ℓ} (blank : A) where
  pub pop-IsValid : {q : MessageQueue A} → IsValid q → IsValid (pop blank q).1
  unfolding pop
  pop-IsValid {q} v = elim (Bool-cases (ltb 0 q.size)) [
    | inl some_left ↦ rw some_left (record {
      log = v.log;
      power = v.power;
      small = v.small;
      storage = v.storage;
      head_in = rw (advance-mod q.cap q.head v.head_in (cap-le v)) (mod-lt _ (cap_pos v));
      size_in = omega (arith, cap-le v, ltb→lt 0 q.size some_left);
      tail_at =
          v.tail_at
          ∙ head_step q.cap q.head q.size v.head_in (cap-le v) (ltb→lt 0 q.size some_left)
              v.size_in;
    })
    | inr empty ↦ rw empty v
  ]
