-- ===== src/Lib.antt =====
-- The netchan session layer, src/netchan.c with its header src/netchan.h and src/nc_addr.h, the frame
-- codec of its WebSocket transport, transport/nc_ws.c, its encryption, crypto/nc_crypto.c, the discovery
-- packet, discovery/nc_beacon.c over idl/microser.h, and the small library beside it,
-- microchan/src/microchan.c.
--
-- A connection carries up to 256 channels over datagrams. The application calls netchan_feed with each
-- packet that arrives, netchan_send_next for each packet to send, netchan_service for the timers,
-- netchan_chan_write and netchan_chan_read for messages and netchan_poll for events. No call blocks and
-- nothing is shared between connections, so the state is one record, Conn, that every call takes and
-- returns.
--
-- Parts, and where they are modelled:
--   Base         Booleans, machine words, lists, arrays as functions, memory as a function of the address
--   Types        the constants, enums and structures
--   Wire         wr16, wr32, rd16, rd32
--   BufferPool   pool_init, pool_get, pool_put, pool_ptr and the copies into and out of a buffer
--   Events       ev_push, ev_push_redirect, netchan_poll
--   Ctrl         ctrl_reserve and the control frames
--   Channel      max_frag_payload, chan_reset_bufs, chan_new, chan_free
--   Receive      chan_recv_enqueue, chan_deliver_reordered, frag_find, frag_alloc, frag_free
--   Data         process_data
--   Acks         process_ack
--   Frames       the other frame handlers, process_connect_init to process_window_update
--   Packet       parse_frames, validate_migration, netchan_peek_id, netchan_feed
--   Send         chan_next_sendable, netchan_send_next
--   Service      netchan_service
--   Connection   nc_random_id, netchan_cfg_default, netchan_open, netchan_config, netchan_connect,
--                netchan_accept, netchan_disconnect, netchan_close
--   Api          netchan_chan_open, netchan_chan_close, netchan_chan_write, netchan_chan_read, statistics
--   Safety       the calls as steps of a connection, and what all of them keep
--   WebSocket    the frame codec of transport/nc_ws.c: nc_ws_frame_parse, nc_ws_frame_build
--   Crypto       crypto/nc_crypto.c over the primitives of monocypher, Crypto.Primitives: Keys has the
--                handshake, Datagrams sealing and opening
--   Microser     idl/microser.h, the unsigned values and byte strings
--   Beacon       discovery/nc_beacon.c
--   Microchan    microchan/src/microchan.c: Receive has mc_feed, Send has mc_send_next and mc_service, and
--                EndToEnd two connections with the network between them
--   Examples     concrete inputs for the theorems
-- Child modules hold the theorems about their parent's definitions.
--
-- How the code is rendered. An array is a function of its index, a pool index that may be NC_NOBUF is
-- an Option, and a pointer to a channel is its slot in chan_pool. The stack of free buffers is a list,
-- its top first, so that pool_free_top is its length; ctrl_buf is the list of the bytes in use. Packets
-- are lists of bytes, of any size. Unsigned words are natural numbers whose wrap-around is written out
-- where the code computes with them. A handler that returns a count or an error returns a Result. A
-- handler that a DATA frame runs on one channel works on that channel, the pool and the event queue
-- (Receive.Rx), and Data.with_rx puts them back. A copy that reaches past pool_store, which stands before
-- the event ring in the structure, sets Pool.overrun for good; what the code does after that is undefined
-- and not modelled, and statements about a connection hold as long as the flag is false. In the same way
-- WsFrame.overrun says that unmasking has left the buffer. A division by zero is the result `trap`. The clock, /dev/urandom and the address of a stack
-- variable are answers in the record Env, indexed by how often a call has asked.
--
-- Fuel. parse_frames gets one more round than the packet has bytes; a packet that ran out of it would
-- yield none, which does not happen, since every accepted frame has a byte. chan_deliver_reordered gets
-- 65 rounds: each empties one of 64 slots. The scans of the window of sent messages get 64 rounds, one
-- for each slot of the ring. In microchan, process_ack and the reliable records of mc_send_next get the
-- distance to tx_next, and the records of mc_feed the packet's length, as do the fields of
-- nc_beacon_parse; more fuel makes no difference to them. The other loops count to a bound of the code.
--
-- Not modelled: failure of calloc, wiping of secrets, the UDP transport, the WebSocket handshake and the
-- authentication, which are separate from the session layer, the signed values of idl/microser.h
-- with their generator, and the transports and examples of microchan.
pub mod Base
pub mod Types
pub mod Wire
pub mod BufferPool
pub mod Events
pub mod Ctrl
pub mod Channel
pub mod Receive
pub mod Data
pub mod Acks
pub mod Connection
pub mod Frames
pub mod Packet
pub mod Send
pub mod Service
pub mod Api
pub mod Safety
pub mod WebSocket
pub mod Crypto
pub mod Microser
pub mod Beacon
pub mod Microchan
pub mod Examples
