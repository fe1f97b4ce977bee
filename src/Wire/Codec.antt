-- ===== src/Wire/Codec.antt =====
-- Reading back what the writers of src/netchan.c wrote, at any place in a packet.
use native.Mathlib.Nat.{add_assoc}
use Prim.Native.Nat.add
use netchan.Base.{
  ℕ, ◌+◌, ◌<◌, ◌≡◌, ◌∙◌, arith, length, get_or, List, [], ◌∷◌, ◌++◌, u16_mod, u32_mod,
}
use netchan.Wire.{wr16, wr32, rd16, rd32}

pub get_or-skip : (xs ys : List ℕ) (k : ℕ) → get_or (xs ++ ys) (length xs + k) 0 ≡ get_or ys k 0
get_or-skip [] ys k = rw (add.zero k)
get_or-skip (x ∷ xs) ys k = rw (add.suc (length xs) k) (get_or-skip xs ys k)

-- Reads behind a prefix do not depend on the prefix.
pub rd16-skip : (xs ys : List ℕ) (i : ℕ) → rd16 (xs ++ ys) (length xs + i) ≡ rd16 ys i
unfolding rd16
rd16-skip xs ys i = rw (add_assoc (length xs) i 1, get_or-skip xs ys i, get_or-skip xs ys (i + 1))

pub rd32-skip : (xs ys : List ℕ) (i : ℕ) → rd32 (xs ++ ys) (length xs + i) ≡ rd32 ys i
unfolding rd32
rd32-skip xs ys i = rw (
  add_assoc (length xs) i 1,
  add_assoc (length xs) i 2,
  add_assoc (length xs) i 3,
  get_or-skip xs ys i,
  get_or-skip xs ys (i + 1),
  get_or-skip xs ys (i + 2),
  get_or-skip xs ys (i + 3),
)

rd16-wr16_head : (v : ℕ) (post : List ℕ) → v < u16_mod → rd16 (wr16 v ++ post) 0 ≡ v
unfolding rd16 wr16
rd16-wr16_head v post h = omega arith

rd32-wr32_head : (v : ℕ) (post : List ℕ) → v < u32_mod → rd32 (wr32 v ++ post) 0 ≡ v
unfolding rd32 wr32
rd32-wr32_head v post h = omega arith

-- rd16 returns a 16-bit value that wr16 wrote, behind any prefix and before any suffix.
pub rd16-wr16 :
    (pre post : List ℕ) (v : ℕ) → v < u16_mod → rd16 (pre ++ (wr16 v ++ post)) (length pre + 0) ≡ v
rd16-wr16 pre post v h = rd16-skip pre (wr16 v ++ post) 0 ∙ rd16-wr16_head v post h

-- rd32 returns a 32-bit value that wr32 wrote, behind any prefix and before any suffix.
pub rd32-wr32 :
    (pre post : List ℕ) (v : ℕ) → v < u32_mod → rd32 (pre ++ (wr32 v ++ post)) (length pre + 0) ≡ v
rd32-wr32 pre post v h = rd32-skip pre (wr32 v ++ post) 0 ∙ rd32-wr32_head v post h
