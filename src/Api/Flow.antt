-- ===== src/Api/Flow.antt =====
-- Flow control in netchan_chan_write.
use netchan.Base.{ℕ, ◌≤◌, ◌<◌, ◌≡◌, false, Option, none, some, arith, length, List, u32_mod}
use netchan.Api.{frag_count, Written, queue_as, queue_entry, write_chan}
use netchan.Api.Ownership.{over_window, write_chan_cases}
use netchan.BufferPool.{pool_get}
use netchan.Types.{reliable, chan_opened, Chan, Pool}

queue_as_window :
    (ch : Chan) (bytes : List ℕ) (x : ℕ) (p : Pool) (frags : Option ℕ)
    → ch.type ≡ reliable
    → ch.state ≡ chan_opened
    → ch.send_window < u32_mod
    → ch.bytes_in_flight ≤ ch.send_window
    → over_window ch (length bytes) ≡ false
    → let ch' = (queue_as ch bytes x p frags).1 in ch'.bytes_in_flight ≤ ch'.send_window
unfolding queue_as
queue_as_window ch bytes x p none r s w h fits = h
queue_as_window ch bytes x p (some total) r s w h fits = ground arith

queue_entry_window :
    (frag_payload : ℕ) (ch : Chan) (bytes : List ℕ) (got : Option ℕ × Pool)
    → ch.type ≡ reliable
    → ch.state ≡ chan_opened
    → ch.send_window < u32_mod
    → ch.bytes_in_flight ≤ ch.send_window
    → over_window ch (length bytes) ≡ false
    → let ch' = (queue_entry frag_payload ch bytes got).1 in ch'.bytes_in_flight ≤ ch'.send_window
unfolding queue_entry
queue_entry_window frag_payload ch bytes (none, p) r s w h fits = h
queue_entry_window frag_payload ch bytes (some x, p) r s w h fits =
    queue_as_window ch bytes x p (frag_count frag_payload (length bytes)) r s w h fits

-- If a reliable open channel has no more bytes in flight than the peer's window, a uint32_t, allows,
-- then it has no more after a write, whatever its result.
pub write_chan_window :
    (frag_payload : ℕ) (ch : Chan) (p : Pool) (bytes : List ℕ)
    → ch.type ≡ reliable
    → ch.state ≡ chan_opened
    → ch.send_window < u32_mod
    → ch.bytes_in_flight ≤ ch.send_window
    → let ch' = (write_chan frag_payload ch p bytes).1 in ch'.bytes_in_flight ≤ ch'.send_window
write_chan_window frag_payload ch p bytes r s w h =
    write_chan_cases (λ (x : Written). x.1.bytes_in_flight ≤ x.1.send_window) frag_payload ch p
      bytes (λ result. h)
      (λ room fits short. queue_entry_window frag_payload ch bytes (pool_get p) r s w h fits)
