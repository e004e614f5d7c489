-- ===== src/Buffer/Extend/Runs.antt =====
-- The ways through `extend`, each as an equation.
use node_lua.Common.{ℕ, ◌+◌, ◌≤◌, ◌<◌, ◌≡◌, ◌≢◌, Option, some, none, Bool, true, false, ◌⊎◌, arith}
use node_lua.Common.Words.{sub64}
use node_lua.Buffer.{room, gen_capacity, resized, copied, release, extend}
use node_lua.Buffer.Heap.{Block, Heap, update}

module _ (grants : ℕ → Bool) (junk : ℕ) where
  -- One step of the code for each way through it.
  pub extend_in_place :
      (own other : Block → Option Block) (n p : ℕ) (h : Heap) (b b' : Block)
      → h.cell p ≡ some b
      → b.ref ≡ 1
      → n ≤ room b
      → own b ≡ some b'
      → extend grants junk own other n p h
        ≡ some ((true, some p), record h { cell = update h.cell p (some b') })
  unfolding extend
  extend_in_place own other n p h b b' at one fits e = ground arith

  pub extend_realloc :
      (own other : Block → Option Block) (n p : ℕ) (h : Heap) (b b' : Block)
      → h.cell p ≡ some b
      → b.ref ≡ 1
      → room b < n
      → 0 < gen_capacity b n
      → grants (gen_capacity b n) ≡ true
      → own (resized junk b (gen_capacity b n)) ≡ some b'
      → extend grants junk own other n p h
        ≡ some (
          (true, some h.next),
          record h { next = h.next + 1; cell = update (update h.cell p none) h.next (some b') },
        )
  unfolding extend
  extend_realloc own other n p h b b' at one over pos got e = ground arith

  pub extend_copy :
      (own other : Block → Option Block) (n p : ℕ) (h : Heap) (b copy b' : Block)
      → h.cell p ≡ some b
      → p ≢ h.next
      → b.ref ≢ 1
      → 0 < gen_capacity b n
      → grants (gen_capacity b n) ≡ true
      → copied junk b (gen_capacity b n) ≡ some copy
      → other copy ≡ some b'
      → extend grants junk own other n p h
        ≡ some (
          (true, some h.next),
          record h {
            next = h.next + 1;
            cell =
                update (update h.cell h.next (some b')) p (some (record b { ref = sub64 b.ref 1 }));
          },
        )
  unfolding extend release
  extend_copy own other n p h b copy b' at old shared pos got ec eo = ground arith

  -- The tests that all refusals pass.
  pub extend_refused :
      (own other : Block → Option Block) (n p : ℕ) (h : Heap) (b : Block)
      → h.cell p ≡ some b
      → ((b.ref ≢ 1) ⊎ (room b < n))
      → ((gen_capacity b n ≡ 0) ⊎ (grants (gen_capacity b n) ≡ false))
      → extend grants junk own other n p h ≡ some ((false, some p), h)
  unfolding extend
  extend_refused own other n p h b at need no_room = ground arith
