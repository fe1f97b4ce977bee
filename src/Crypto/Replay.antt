-- ===== src/Crypto/Replay.antt =====
-- The replay window of crypto/nc_crypto.c as a set of counters: which were taken or are too old.
use native.Mathlib.Nat.{zero-div}
use netchan.Base.{
  ltb, leb, ◌==◌, if◌then◌else◌, Bool-cases, ℕ, ◌+◌, ◌-◌, ◌*◌, ◌%◌, ◌^◌, ◌≤◌, ◌<◌, ◌≡◌, refl, ◌∙◌,
  inl, inr, Bool, true, false, ◌||◌, arith, size_mod,
}
use netchan.Crypto.{bit_set}
use netchan.Crypto.Bits.{bit, bit-mod, bit-shift, bit-shift_low, bit-set}

-- The window has dropped n: it is 64 or more below the highest counter taken.
abbrev pub too_old : ℕ → ℕ → Bool
too_old rx_max n = leb (n + 64) rx_max

-- Counter n was taken, or is too old to tell.
unfoldable pub seen : ℕ → ℕ → ℕ → Bool
seen rx_max window n =
    if ltb rx_max n
    then false
    else if leb 64 (rx_max - n)
    then true
    else bit_set window (rx_max - n)

abbrev shifted : ℕ → ℕ → ℕ
shifted window shift = if leb 64 shift then 0 else window * 2 ^ shift % size_mod

-- A shift clears the bits below s, and bit s + d is what bit d was.
bit-shifted_low : (w s j : ℕ) → j < s → j < 64 → bit (shifted w s) j ≡ 0
bit-shifted_low w s j h k = elim (Bool-cases (leb 64 s)) [
  | inl all ↦ rw (all, zero-div (2 ^ j)) refl
  | inr some_bits ↦ rw some_bits (bit-mod j 64 (w * 2 ^ s) k ∙ bit-shift_low s j w h)
]

bit-shifted : (w s d : ℕ) → s + d < 64 → bit (shifted w s) (s + d) ≡ bit w d
bit-shifted w s d h =
    let few : leb 64 s ≡ false = ground arith in
    rw few (bit-mod (s + d) 64 (w * 2 ^ s) h ∙ bit-shift s d w)

-- The window after a counter above the highest: what was seen still is.
pub seen-shifted :
    (rx_max window n m : ℕ)
    → rx_max < n
    → seen n (shifted window (n - rx_max) + 1) m ≡ (m == n || (seen rx_max window m || too_old n m))
unfolding seen
seen-shifted rx_max window n m h =
    let s = n - rx_max in
    let clear : bit (shifted window s) 0 ≡ 0 =
      bit-shifted_low window s 0 (omega arith) (omega arith) in
    elim (Bool-cases (ltb m n)) [
      | inr above ↦ ground (arith, bit-set 0 (n - m) (shifted window s) clear)
      | inl below ↦ elim (Bool-cases (leb 64 (n - m))) [
        | inl old ↦ ground arith
        | inr recent ↦ elim (Bool-cases (ltb rx_max m)) [
          | inl fresh ↦
              ground (
                arith,
                bit-set 0 (n - m) (shifted window s) clear,
                bit-shifted_low window s (n - m),
              )
          | inr kept ↦
              let e : n - m ≡ s + (rx_max - m) = ground arith in
              let same : bit (shifted window s) (n - m) ≡ bit window (rx_max - m) =
                rw e (bit-shifted window s (rx_max - m) (ground arith)) in
              ground (arith, bit-set 0 (n - m) (shifted window s) clear, same)
        ]
      ]
    ]

-- The window after a counter in it.
pub seen-marked :
    (rx_max window n m : ℕ)
    → n ≤ rx_max
    → rx_max - n < 64
    → bit window (rx_max - n) ≡ 0
    → seen rx_max (window + 2 ^ (rx_max - n)) m
      ≡ (m == n || (seen rx_max window m || too_old rx_max m))
unfolding seen
seen-marked rx_max window n m h k clear =
    ground (arith, bit-set (rx_max - n) (rx_max - m) window clear)
