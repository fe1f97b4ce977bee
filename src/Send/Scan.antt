-- ===== src/Send/Scan.antt =====
-- chan_next_sendable finds an entry with a fragment to send whenever the window has one.
use netchan.Base.{
  ltb, ℕ, zero, suc, ◌+◌, ◌-◌, ◌%◌, ◌<◌, ◌≡◌, ◌≢◌, ◌⊎◌, Bool, true, false, ◌&&◌, none, arith,
}
use netchan.Channel.Ownership.{in_window}
use netchan.Send.{scan_sendable, chan_next_sendable}
use netchan.Types.{Outgoing, Chan}

-- An entry that is in use and has a fragment to send.
abbrev pub sendable : Outgoing → Bool
sendable o = o.active && ltb o.frag_sent o.frag_total

window_rest :
    (head tail i : ℕ)
    → head < 64
    → tail < 64
    → i < 64
    → in_window head tail i ≡ true
    → (head ≢ tail) × ((i ≡ head) ⊎ (in_window ((head + 1) % 64) tail i ≡ true))
window_rest head tail i h k l w = ground arith

window_shrinks :
    (head tail : ℕ)
    → head < 64
    → tail < 64
    → head ≢ tail
    → (tail + 64 - (head + 1) % 64) % 64 < (tail + 64 - head) % 64
window_shrinks head tail h k ne = omega arith

scan_sendable_complete :
    (fuel : ℕ) (outgoing : ℕ → Outgoing) (tail idx i : ℕ)
    → idx < 64
    → tail < 64
    → i < 64
    → (tail + 64 - idx) % 64 < fuel
    → scan_sendable fuel outgoing tail idx ≡ none
    → in_window idx tail i ≡ true
    → sendable (outgoing i) ≡ false
unfolding scan_sendable
scan_sendable_complete zero outgoing tail idx i h k l m e w = absurd (omega arith)
scan_sendable_complete (suc fuel) outgoing tail idx i h k l m e w = ground (
  arith,
  window_rest idx tail i h k l w,
  window_shrinks idx tail h k,
  scan_sendable_complete fuel outgoing tail ((idx + 1) % 64) i,
)

-- Where chan_next_sendable returns none and the ring's indices are in range, no entry of the window
-- [out_head, out_tail) has a fragment left to send.
pub chan_next_sendable_complete :
    (ch : Chan) (i : ℕ)
    → ch.out_head < 64
    → ch.out_tail < 64
    → i < 64
    → chan_next_sendable ch ≡ none
    → in_window ch.out_head ch.out_tail i ≡ true
    → sendable (ch.outgoing i) ≡ false
unfolding chan_next_sendable
chan_next_sendable_complete ch i h k l e w =
    scan_sendable_complete 64 ch.outgoing ch.out_tail ch.out_head i h k l (omega arith) e w
