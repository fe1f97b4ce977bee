-- ===== src/Packet/Roundtrip.antt =====
-- Frames that one side writes and the other reads.
use netchan.Base.{
  ltb, ℕ, ◌+◌, ◌<◌, ◌≡◌, ◌∙◌, false, arith, length, take, drop, length-append, take-append, List,
  ◌++◌, u16_mod,
}
use netchan.Data.{data_on, process_data}
use netchan.Send.{data_frame}
use netchan.Types.{ok, Outgoing, Conn}
use netchan.Wire.{byte_at, wr16, rd16}

take_front : (n : ℕ) (xs ys : List ℕ) → length xs ≡ n → take n (xs ++ ys) ≡ xs
take_front n xs ys e = rw (← e) (take-append xs ys)

process_data_whole :
    (c : Conn) (p : List ℕ) (n : ℕ)
    → ltb (length p) 8 ≡ false
    → rd16 p 4 ≡ n
    → ltb (length p) (8 + n) ≡ false
    → process_data c p ≡ (
      data_on c
          (c.channels (byte_at p 1))
          (rd16 p 2)
          (byte_at p 6)
          (byte_at p 7)
          (take n (drop 8 p)),
      ok (8 + n),
    )
unfolding process_data
process_data_whole c p n e₁ e₂ e₃ = rw (e₁, e₂, e₃)

-- A DATA frame that netchan_send_next writes is read back by process_data, whatever follows it, if its
-- sequence number and its payload's length fit 16 bits: the same channel, sequence number, fragment
-- and payload go on to data_on, and exactly the frame's bytes are consumed.
pub process_data-data_frame :
    (c : Conn) (id : ℕ) (o : Outgoing) (payload rest : List ℕ)
    → o.seq < u16_mod
    → length payload < u16_mod
    → process_data c (data_frame id o payload ++ rest) ≡ (
      data_on c (c.channels id) o.seq o.frag_sent o.frag_total payload,
      ok (length (data_frame id o payload)),
    )
unfolding data_frame rd16 wr16
process_data-data_frame c id o payload rest h k =
    process_data_whole c (data_frame id o payload ++ rest) (length payload) (ground arith)
      (omega arith) (ground (arith, length-append payload rest))
    ∙ ground (arith, take-append payload rest)
