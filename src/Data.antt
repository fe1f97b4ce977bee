-- ===== src/Data.antt =====
-- process_data of src/netchan.c: DATA frames on reliable and unreliable channels.
pub mod Reassembly
pub mod Ownership
pub mod Order
pub mod Bounds
pub mod Fragments
use netchan.Base.{
  ltb, leb, ◌==◌, if◌then◌else◌, ℕ, zero, suc, ◌+◌, ◌-◌, ◌*◌, ◌/◌, ◌%◌, ◌^◌, Bool, true, not, ◌&&◌,
  Option, none, some, update, length, take, drop, List, inc8, inc16, sub16,
}
use netchan.BufferPool.{pool_get, touch, pool_write, pool_read}
use netchan.Channel.{max_frag_payload}
use netchan.Receive.{Rx, deliver, chan_deliver_reordered, frag_find, frag_alloc, frag_free}
use netchan.Types.{
  reorder_slots, max_msg, unreliable, receiver, err_proto, Result, ok, err, Reorder, Pool, Conn,
}
use netchan.Wire.{byte_at, rd16}

-- Message `seq` has all its bytes. Out of order it waits in its slot of the reorder buffer, if it
-- lies fewer than 64 messages ahead and the slot and a pool buffer are free.
unfoldable pub fill_slot : Rx → ℕ → List ℕ → Option ℕ × Pool → Rx
fill_slot r seq bytes (none, p) = record r { pool = p }
fill_slot r seq bytes (some b, p) =
    let e : Reorder = record { seq = seq; buf = some b; len = length bytes; valid = true } in
    record r {
      pool = pool_write p (some b) 0 bytes;
      ch = record (r.ch) { reorder = update r.ch.reorder (seq % reorder_slots) e };
    }

unfoldable pub hold_back : Rx → ℕ → List ℕ → Rx
hold_back r seq bytes =
    let diff = sub16 seq r.ch.recv_seq in
    if (ltb 0 diff && ltb diff reorder_slots)
      && (not (r.ch.reorder (seq % reorder_slots)).valid && leb (length bytes) max_msg)
    then fill_slot r seq bytes (pool_get r.pool)
    else r

unfoldable pub next_message : ℕ → Rx → List ℕ → Rx
next_message s r bytes =
    let r' = deliver s r bytes in
    chan_deliver_reordered s (record r' { ch = record (r'.ch) { recv_seq = inc16 r'.ch.recv_seq } })

unfoldable pub accept_reliable : ℕ → Rx → ℕ → List ℕ → Rx
accept_reliable s r seq bytes =
    if seq == r.ch.recv_seq then next_message s r bytes else hold_back r seq bytes

-- Bit i of a bitmask. Where it is not set, `bitmask |= 1u << i` adds 2 ^ i.
abbrev pub has_bit : ℕ → ℕ → Bool
has_bit mask i = mask / 2 ^ i % 2 == 1

-- `if (pos != i * fp) memmove(base + pos, base + i * fp, offsets[i])`, where `at` is pos.
unfoldable pub move_frag : Option ℕ → (ℕ → ℕ) → ℕ → ℕ → ℕ → Pool → Pool
move_frag b offsets fp i at p =
    if at == i * fp
    then p
    else pool_write (touch p b (i * fp) (offsets i)) b at (pool_read p b (i * fp) (offsets i))

-- The loop that moves the fragments together: i counts up, n fragments are left, `at` is the
-- number of bytes in place.
unfoldable pub compact : Option ℕ → (ℕ → ℕ) → ℕ → ℕ → ℕ → ℕ → Pool → ℕ × Pool
compact b offsets fp i zero at p = (at, p)
compact b offsets fp i (suc n) at p =
    compact b offsets fp (i + 1) n (at + offsets i) (move_frag b offsets fp i at p)

-- All fragments are there: the message goes to `take_message`, and the assembly is released.
unfoldable pub finish_frag : (Rx → List ℕ → Rx) → ℕ → ℕ → Rx → Rx
finish_frag take_message fp i r =
    let f = r.ch.frags i in
    let (total, p) = compact f.buf f.offsets fp 0 f.total 0 r.pool in
    frag_free (take_message (record r { pool = p }) (pool_read p f.buf 0 total)) i

-- Fragment frag_idx of the assembly in slot i arrives.
unfoldable pub store_frag : ℕ → Rx → ℕ → ℕ → List ℕ → Rx
store_frag fp r i frag_idx payload =
    let f = r.ch.frags i in
    let f' = record f {
      offsets = update f.offsets frag_idx (length payload);
      bitmask = f.bitmask + 2 ^ frag_idx;
      have = inc8 f.have;
    } in
    record r {
      pool = pool_write r.pool f.buf (frag_idx * fp) payload;
      ch = record (r.ch) { frags = update r.ch.frags i f' };
    }

unfoldable pub add_frag : (Rx → List ℕ → Rx) → ℕ → Rx → ℕ → ℕ → List ℕ → Rx
add_frag take_message fp r i frag_idx payload =
    let r' = store_frag fp r i frag_idx payload in
    if (r'.ch.frags i).have == (r'.ch.frags i).total then finish_frag take_message fp i r' else r'

unfoldable pub take_frag : (Rx → List ℕ → Rx) → ℕ → ℕ → List ℕ → Option ℕ × Rx → Rx
take_frag take_message fp frag_idx payload (none, r) = r
take_frag take_message fp frag_idx payload (some i, r) =
    let f = r.ch.frags i in
    if (ltb frag_idx f.total && not (has_bit f.bitmask frag_idx))
      && leb (frag_idx * fp + length payload) max_msg
    then add_frag take_message fp r i frag_idx payload
    else r

-- `f = frag_find(ch, seq); if (!f) f = frag_alloc(ch, seq, frag_total);`
unfoldable pub find_or_alloc : Rx → ℕ → ℕ → Option ℕ → Option ℕ × Rx
find_or_alloc r seq frag_total none = frag_alloc r seq frag_total
find_or_alloc r seq frag_total (some i) = (some i, r)

unfoldable pub on_frag : (Rx → List ℕ → Rx) → ℕ → Rx → ℕ → ℕ → ℕ → List ℕ → Rx
on_frag take_message fp r seq frag_idx frag_total payload =
    take_frag take_message fp frag_idx payload (find_or_alloc r seq frag_total (frag_find r.ch seq))

-- `need_ack = 1`, with the last message delivered in order.
unfoldable pub request_ack : Rx → Rx
request_ack r = record r {
  ch = record (r.ch) {
    need_ack = true;
    ack_seq = if ltb 0 r.ch.recv_seq then r.ch.recv_seq - 1 else 0;
  };
}

-- A DATA frame for the receiving channel in slot s; `fp` is max_frag_payload.
unfoldable pub receive_data : ℕ → ℕ → Rx → ℕ → ℕ → ℕ → List ℕ → Rx
receive_data s fp r seq frag_idx frag_total payload =
    if r.ch.type == unreliable
    then if leb frag_total 1
      then deliver s r payload
      else on_frag (deliver s) fp r seq frag_idx frag_total payload
    else request_ack (
        if leb frag_total 1
        then accept_reliable s r seq payload
        else on_frag (λ r' bytes. accept_reliable s r' seq bytes) fp r seq frag_idx frag_total
            payload)

-- What a frame handler returns beside the connection: the bytes consumed, or an error.
abbrev pub Reply : Type 0
Reply = Conn × Result ℕ

-- Run a receiving function on the channel in slot s.
unfoldable pub with_rx : Conn → ℕ → (Rx → Rx) → Conn
with_rx c s f =
    let r = f (record { pool = c.pool; evq = c.evq; ch = c.chan_pool s }) in
    record c { pool = r.pool; evq = r.evq; chan_pool = update c.chan_pool s r.ch }

unfoldable pub data_on : Conn → Option ℕ → ℕ → ℕ → ℕ → List ℕ → Conn
data_on c none seq frag_idx frag_total payload = c
data_on c (some s) seq frag_idx frag_total payload =
    if (c.chan_pool s).role == receiver
    then with_rx c s
        (λ r. receive_data s (max_frag_payload c.cfg) r seq frag_idx frag_total payload)
    else c

unfoldable pub process_data : Conn → List ℕ → Reply
process_data c p =
    if ltb (length p) 8
    then (c, err err_proto)
    else let data_len = rd16 p 4 in
      if ltb (length p) (8 + data_len) then (c, err err_proto) else (
        data_on c (c.channels (byte_at p 1)) (rd16 p 2) (byte_at p 6) (byte_at p 7)
            (take data_len (drop 8 p)),
        ok (8 + data_len),
      )
