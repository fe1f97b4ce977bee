-- ===== src/Wire.antt =====
-- The byte I/O helpers of src/netchan.c: big-endian integers, as the bytes written or read.
pub mod Codec
use netchan.Base.{ℕ, ◌+◌, ◌*◌, ◌/◌, ◌%◌, get_or, List, [], ◌∷◌}

abbrev pub byte_at : List ℕ → ℕ → ℕ
byte_at p i = get_or p i 0

unfoldable pub wr16 : ℕ → List ℕ
wr16 v = v / 256 % 256 ∷ v % 256 ∷ []

unfoldable pub wr32 : ℕ → List ℕ
wr32 v = v / 16777216 % 256 ∷ v / 65536 % 256 ∷ v / 256 % 256 ∷ v % 256 ∷ []

-- The integer at p + i.
unfoldable pub rd16 : List ℕ → ℕ → ℕ
rd16 p i = byte_at p i * 256 + byte_at p (i + 1)

unfoldable pub rd32 : List ℕ → ℕ → ℕ
rd32 p i =
    byte_at p i * 16777216 + byte_at p (i + 1) * 65536 + byte_at p (i + 2) * 256 + byte_at p (i + 3)
