-- ===== src/Safety.antt =====
-- The storage of a connection in src/netchan.c: its channel pool, its buffer pool and its table of
-- channels, and what every call keeps true of them.
pub mod Frames
pub mod Opening
pub mod Packets
pub mod Sending
pub mod Timers
pub mod Calls
pub mod Inside
pub mod Accesses
pub mod Delivery
use netchan.Base.{
  ltb, ◌==◌, if◌then◌else◌, ℕ, ◌+◌, ◌<◌, ◌≡◌, refl, Bool, true, false, Option, some, arith, update,
  sum_below, sum_below-update, count,
}
use netchan.Channel.Ownership.{owned, ChanInv, Held}
use netchan.Types.{max_chan, pool_bufs, Chan, Pool, Conn}

-- What holds of the storage: every channel is in shape; each of the 64 buffers is in exactly one
-- place, free or in one slot of one channel; the table names slots in use; a slot that is not in
-- use holds no buffer.
pub record StoreInv (chans : ℕ → Chan) (p : Pool) (table : ℕ → Option ℕ) (used : ℕ → Bool)
    : Type 0 where
  pub in_shape : (s : ℕ) → ChanInv (chans s)
  pub total :
      (b : ℕ)
      → count b p.free + sum_below max_chan (λ s. owned b (chans s))
        ≡ (if ltb b pool_bufs then 1 else 0)
  pub named : (id s : ℕ) → table id ≡ some s → (s < max_chan) × (used s ≡ true)
  pub unused : (s b : ℕ) → s < max_chan → used s ≡ false → owned b (chans s) ≡ 0

abbrev pub ConnInv : Conn → Type 0
ConnInv c = StoreInv c.chan_pool c.pool c.channels c.chan_used

-- A slot in use.
abbrev pub Live : Conn → ℕ → Type 0
Live c s = (s < max_chan) × (c.chan_used s ≡ true)

-- An operation on one channel and the pool that conserves buffers keeps the storage sound.
pub put_chan-StoreInv :
    {chans : ℕ → Chan} {p : Pool} {table : ℕ → Option ℕ} {used : ℕ → Bool} (s : ℕ) (ch : Chan)
    (p' : Pool)
    → s < max_chan
    → used s ≡ true
    → ((b n : ℕ) → Held b n (chans s) p → Held b n ch p')
    → StoreInv chans p table used
    → StoreInv (update chans s ch) p' table used
put_chan-StoreInv {chans} {p} {table} {used} s ch p' h u keeps v = record {
  in_shape = λ i. elim (s == i) as (λ here. ChanInv (if here then ch else chans i)) [
    | true ↦
        (keeps 0 (count 0 p.free + owned 0 (chans s))
          (record { inv = v.in_shape s; total = refl })).inv
    | false ↦ v.in_shape i
  ];
  total = λ b. omega (
    arith,
    sum_below-update (owned b) chans s ch max_chan h,
    (keeps b (count b p.free + owned b (chans s))
        (record { inv = v.in_shape s; total = refl })).total,
    v.total b,
  );
  named = v.named;
  unused = λ i b l f. ground (arith, v.unused i b l);
}
