-- ===== src/Examples/Microchan.antt =====
-- Concrete inputs for the theorems about microchan/src/microchan.c.
use netchan.Base.{
  ltb, leb, ◌==◌, if◌then◌else◌, ℕ, ◌≡◌, refl, true, false, none, some, arith, List, [], ◌∷◌, ◌++◌,
}
use netchan.Microchan.{
  ev_push, gen_id, mc_open, mc_connect, open_at, mc_chan_open, read_msg, mc_read, write_reliable,
  mc_write,
}
use netchan.Microchan.Delivery.{records-record_bytes}
use netchan.Microchan.EndToEnd.{Link, fresh_end, fresh_end-Sends}
use netchan.Microchan.Packets.{Yields, mc_send_next-Sends}
use netchan.Microchan.Receive.{deliver, records, feed_synack, feed_as, mc_feed}
use netchan.Microchan.Rings.{inbox8, InRing8, dequeue8, inbox8-read_msg}
use netchan.Microchan.Send.{
  send_data, record_bytes, reliable_records, unreliable_records, packet_syn, with_reliable,
  with_unreliable, send_reliable, send_unreliable, nothing_to_say, send_queued, mc_send_next,
  mc_service,
}
use netchan.Microchan.Sending.{mc_write-Sends}
use netchan.Microchan.Timeout.{Unanswered, asked, asked_again, mc_service_gives_up}
use netchan.Microchan.Types.{is_closed, is_opening, McAddr, McChan, Microchan, no_mc_chan}
use netchan.Microchan.Window.{Sends, mc_feed-Sends}
use netchan.Wire.{wr16, wr32, rd32}

abbrev nowhere : McAddr
nowhere = record { len = 0; a = [] }

-- A client and a server: channel 0 is reliable, channel 1 is not.
abbrev client : Microchan
client = fresh_end false 7 0 1

abbrev server : Microchan
server = fresh_end true 9 0 1

abbrev message : List ℕ
message = 104 ∷ 105 ∷ []

-- A SYNACK of the server for the client.
abbrev synack : List ℕ
synack = 0 ∷ 0 ∷ 0 ∷ 7 ∷ 2 ∷ 0 ∷ 0 ∷ 0 ∷ 0 ∷ 0 ∷ 0 ∷ 9 ∷ []

-- The client connects, hears the server, and sends its ACK, its SYN and a message.
abbrev up_client : Microchan
up_client = (mc_feed (mc_connect client nowhere) synack none).1

abbrev acked_client : Microchan
acked_client = (mc_send_next up_client 546).1

abbrev ready_client : Microchan
ready_client = (mc_send_next acked_client 546).1

abbrev full_client : Microchan
full_client = (mc_write ready_client 0 message).1

abbrev sent_client : Microchan
sent_client = (mc_send_next full_client 546).1

abbrev ack_packet : List ℕ
ack_packet = 0 ∷ 0 ∷ 0 ∷ 9 ∷ 3 ∷ 0 ∷ 0 ∷ 0 ∷ []

abbrev syn_packet : List ℕ
syn_packet = 0 ∷ 0 ∷ 0 ∷ 0 ∷ 1 ∷ 0 ∷ 0 ∷ 0 ∷ 0 ∷ 0 ∷ 0 ∷ 7 ∷ []

abbrev data_packet : List ℕ
data_packet = 0 ∷ 0 ∷ 0 ∷ 9 ∷ 4 ∷ 0 ∷ 0 ∷ 0 ∷ (record_bytes 0 1 0 message)

sends_ack : (mc_send_next up_client 546).0 ≡ some (ack_packet, nowhere)
unfolding fresh_end mc_open gen_id mc_chan_open open_at mc_connect mc_feed feed_as feed_synack
    ev_push rd32 mc_send_next wr32 wr16
sends_ack = refl

sends_syn : (mc_send_next acked_client 546).0 ≡ some (syn_packet, nowhere)
unfolding fresh_end mc_open gen_id mc_chan_open open_at mc_connect mc_feed feed_as feed_synack
    ev_push rd32 mc_send_next packet_syn wr32 wr16
sends_syn = refl

sends_data : (mc_send_next full_client 546).0 ≡ some (data_packet, nowhere)
unfolding fresh_end mc_open gen_id mc_chan_open open_at mc_connect mc_feed feed_as feed_synack
    ev_push rd32 mc_send_next packet_syn wr32 wr16 mc_write write_reliable send_queued
    nothing_to_say send_data send_reliable send_unreliable reliable_records unreliable_records
    with_reliable with_unreliable
sends_data = refl

abbrev told_server : Microchan
told_server = (mc_feed (mc_feed server syn_packet none).1 data_packet none).1

abbrev end_link : Link
end_link = record {
  sender = sent_client;
  receiver = (mc_read told_server 0 64).1;
  wire = data_packet ∷ syn_packet ∷ ack_packet ∷ [];
  written = (0, message) ∷ [];
  got = message ∷ [];
}

client-Sends : Sends 0 ((0, message) ∷ []) full_client
unfolding fresh_end mc_open gen_id mc_chan_open open_at mc_connect mc_feed feed_as feed_synack
    ev_push rd32 mc_send_next packet_syn wr32 wr16 mc_write write_reliable
client-Sends =
    mc_write-Sends 0 [] ready_client 0 message (omega arith)
      (fresh_end-Sends 0 false 7 0 1 (omega arith) refl)

mc_send_next-Sends_example :
    let (reply, c') = mc_send_next full_client 546 in
    Sends 0 ((0, message) ∷ []) c' × Yields 0 ((0, message) ∷ []) 546 reply
mc_send_next-Sends_example =
    mc_send_next-Sends 0 ((0, message) ∷ []) full_client 546 (omega arith) client-Sends

-- An acknowledgement of a message that was never sent.
abbrev forged_ack : List ℕ
forged_ack = 0 ∷ 0 ∷ 0 ∷ 7 ∷ 4 ∷ 0 ∷ 0 ∷ 200 ∷ []

mc_feed-Sends_example : Sends 0 ((0, message) ∷ []) (mc_feed full_client forged_ack none).1
mc_feed-Sends_example =
    mc_feed-Sends 0 ((0, message) ∷ []) (omega arith) full_client forged_ack none client-Sends

records-record_bytes_example :
    records 100 server (record_bytes 0 1 0 message ++ record_bytes 1 0 0 message)
    ≡ records 99 (deliver server 0 1 0 message) (record_bytes 1 0 0 message)
records-record_bytes_example =
    records-record_bytes 99 0 1 0 message (record_bytes 1 0 0 message) server (omega arith)
      (omega arith)

-- A ring that has wrapped: messages at 7 and 0.
abbrev wrapped_ring : McChan
wrapped_ring = record no_mc_chan {
  rxq = λ i. if i == 7 then message else (1 ∷ []);
  rx_head = 7;
  rx_count = 2;
}

inbox8-read_msg_example :
    let (reply, ch') = read_msg wrapped_ring 64 in
    ((reply, inbox8 ch') ≡ dequeue8 (inbox8 wrapped_ring) 64) × InRing8 ch'.rx_head ch'.rx_count
inbox8-read_msg_example =
    inbox8-read_msg wrapped_ring 64 (record { head_lt = omega arith; count_le = omega arith })

abbrev asking_client : Microchan
asking_client = mc_connect client nowhere

asked_once : Unanswered asking_client 1 (mc_service asking_client 400).1
unfolding mc_connect fresh_end mc_open gen_id mc_chan_open open_at
asked_once = asked_again 400 asked (omega arith)

mc_service_gives_up_example :
    (is_opening (mc_service asking_client 400).1.state ≡ leb 1 240)
    × (is_closed (mc_service asking_client 400).1.state ≡ ltb 240 1)
unfolding mc_connect
mc_service_gives_up_example = mc_service_gives_up 1 refl refl (omega arith) asked_once
