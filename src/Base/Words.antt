-- ===== src/Base/Words.antt =====
-- Arithmetic of uint8_t, uint16_t, uint32_t and size_t: sums and differences wrap.
use netchan.Base.Tests.{ℕ, ◌+◌, ◌-◌, ◌%◌, Bool, ◌||◌, ◌==◌, leb}

abbrev pub u8_mod : ℕ
u8_mod = 256

abbrev pub u16_mod : ℕ
u16_mod = 65536

abbrev pub u32_mod : ℕ
u32_mod = 4294967296

-- size_t on a 64-bit host
abbrev pub size_mod : ℕ
size_mod = 18446744073709551616

abbrev pub inc8 : ℕ → ℕ
inc8 a = (a + 1) % u8_mod

abbrev pub inc16 : ℕ → ℕ
inc16 a = (a + 1) % u16_mod

abbrev pub sub16 : ℕ → ℕ → ℕ
sub16 a b = (a + u16_mod - b) % u16_mod

abbrev pub add32 : ℕ → ℕ → ℕ
add32 a b = (a + b) % u32_mod

abbrev pub sub32 : ℕ → ℕ → ℕ
sub32 a b = (a + u32_mod - b % u32_mod) % u32_mod

abbrev pub add_size : ℕ → ℕ → ℕ
add_size a b = (a + b) % size_mod

abbrev pub sub_size : ℕ → ℕ → ℕ
sub_size a b = (a + size_mod - b) % size_mod

-- `(int16_t)(a - b) <= 0` on uint16_t values
abbrev pub diff_le_zero : ℕ → ℕ → Bool
diff_le_zero a b = sub16 a b == 0 || leb 32768 (sub16 a b)
