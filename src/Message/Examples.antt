-- ===== src/Message/Examples.antt =====
-- A message of an array with a string and twice the same buffer, which one other holds.
use native.Mathlib.Decide.{ℕ_discrete}
use node_lua.Common.{
  sym, subst, ne→==, ℕ, ◌+◌, ◌≡◌, refl, Option, none, some, ◌==◌, if◌then◌else◌, arith,
}
use node_lua.Message.{Refs, Data, buffer, string, array, end, item, message_clean}
use node_lua.Message.Clean.{keep, held, plain, Counts, IsSingle, message_clean-Counts}

-- Block 1 is the array, 2 the string and 3 the buffer.
abbrev carried : Data
carried =
    array (some 1) (item (string (some 2)) (item (buffer (some 3)) (item (buffer (some 3)) end)))

abbrev memory : Refs
memory n = if n == 1 then some 1 else if n == 2 then some 1 else if n == 3 then some 3 else none

abbrev left_at_3 : Option (Data × Refs) → Option ℕ
left_at_3 none = none
left_at_3 (some (d, refs)) = refs 3

after : left_at_3 (message_clean carried memory) ≡ some 1
unfolding message_clean
after = refl

-- The string is freed already.
twice : message_clean carried (λ n. if n == 2 then none else memory n) ≡ none
unfolding message_clean
twice = refl

abbrev other : ℕ → ℕ
other n = if n == 3 then 1 else 0

abbrev expected : ℕ → Option ℕ
expected n = keep (held n carried + other n)

memory-Counts : Counts memory (λ n. held n carried + other n)
unfolding held
memory-Counts n = elim (ℕ_discrete n 1) [
  | yes at ↦ subst (λ k. memory k ≡ expected k) (sym at) refl
  | no n1 ↦ elim (ℕ_discrete n 2) [
    | yes at ↦ subst (λ k. memory k ≡ expected k) (sym at) refl
    | no n2 ↦ elim (ℕ_discrete n 3) [
      | yes at ↦ subst (λ k. memory k ≡ expected k) (sym at) refl
      | no n3 ↦ rw (ne→== n 1 n1, ne→== n 2 n2, ne→== n 3 n3) refl
    ]
  ]
]

single : IsSingle (λ n. plain n carried) (λ n. held n carried + other n)
unfolding held plain
single n pos = ground arith

message_clean-Counts_example :
    (d' : Data) × (refs' : Refs) × (message_clean carried memory ≡ some (d', refs'))
    × Counts refs' other
message_clean-Counts_example = message_clean-Counts carried memory other memory-Counts single
