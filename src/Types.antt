-- ===== src/Types.antt =====
-- The data of src/netchan.c and src/netchan.h: constants, enums and structures. An array is a
-- function of its index, a pool index is `none` where the source has NC_NOBUF, a pointer to a
-- channel is its slot in the channel pool, and a flag byte is a Bool.
use netchan.Base.{ℕ, Bool, true, false, Option, List}

-- The flags and sizes of the packet header.
abbrev pub version : ℕ
version = 1

abbrev pub pkt_flag_init : ℕ
pkt_flag_init = 1

abbrev pub pkt_flag_pktnum : ℕ
pkt_flag_pktnum = 2

abbrev pub hdr_init_size : ℕ
hdr_init_size = 5

abbrev pub hdr_full_size : ℕ
hdr_full_size = 7

abbrev pub ctrl_buf_size : ℕ
ctrl_buf_size = 1024

abbrev pub max_channels : ℕ
max_channels = 256

abbrev pub event_queue : ℕ
event_queue = 16

abbrev pub outgoing_slots : ℕ
outgoing_slots = 64

abbrev pub recv_queue_size : ℕ
recv_queue_size = 64

abbrev pub reorder_slots : ℕ
reorder_slots = 64

abbrev pub frag_slots : ℕ
frag_slots = 4

abbrev pub max_frags : ℕ
max_frags = 32

abbrev pub max_chan : ℕ
max_chan = 16

abbrev pub max_msg : ℕ
max_msg = 2048

abbrev pub pool_bufs : ℕ
pool_bufs = 64

abbrev pub max_rt_ms : ℕ
max_rt_ms = 1000

abbrev pub max_rt_attempts : ℕ
max_rt_attempts = 5

abbrev pub connect_retry_ms : ℕ
connect_retry_ms = 500

abbrev pub connect_retries : ℕ
connect_retries = 5

abbrev pub ping_interval_ms : ℕ
ping_interval_ms = 5000

-- Channel types and directions come from the wire, where other values may stand.
abbrev pub reliable : ℕ
reliable = 0

abbrev pub unreliable : ℕ
unreliable = 1

abbrev pub dir_send : ℕ
dir_send = 0

abbrev pub dir_recv : ℕ
dir_recv = 1

-- Local roles, and the states of a channel.
abbrev pub sender : ℕ
sender = 0

abbrev pub receiver : ℕ
receiver = 1

abbrev pub chan_opening : ℕ
chan_opening = 0

abbrev pub chan_opened : ℕ
chan_opened = 1

abbrev pub chan_closing : ℕ
chan_closing = 2

abbrev pub chan_closed : ℕ
chan_closed = 3

pub data ConnState : Type 0 where
  new connecting connected closing closed : ConnState

pub data EvType : Type 0 where
  ev_none ev_connected ev_disconnected ev_redirect ev_chan_open ev_chan_close ev_data : EvType

-- NETCHAN_ERR and its causes.
pub data Error : Type 0 where
  err_generic err_nomem err_again err_closed err_flow err_proto err_toobig : Error

-- `trap` where the call divides by zero, which stops the program.
pub data Result {ℓ} (A : Type ℓ) : Type ℓ where
  ok : A → Result A
  err : Error → Result A
  trap : Result A

abbrev pub is_new : ConnState → Bool
is_new new = true
is_new _ = false

abbrev pub is_connecting : ConnState → Bool
is_connecting connecting = true
is_connecting _ = false

abbrev pub is_connected : ConnState → Bool
is_connected connected = true
is_connected _ = false

-- `struct nc_addr`; `a` is the whole array.
pub record Addr : Type 0 where
  pub len : ℕ
  pub a : List ℕ

pub record Cfg : Type 0 where
  pub mtu : ℕ
  pub chan_window : ℕ
  pub idle_timeout_ms : ℕ
  pub retransmit_ms : ℕ

pub record Event : Type 0 where
  pub type : EvType
  pub ch : Option ℕ
  pub redirect_addr : Addr
  pub redirect_conn_id : ℕ

pub record Outgoing : Type 0 where
  pub seq : ℕ
  pub buf : Option ℕ
  pub len : ℕ
  pub sent_ms : ℕ
  pub attempts : ℕ
  pub frag_sent : ℕ
  pub frag_total : ℕ
  pub active : Bool

pub record RecvEntry : Type 0 where
  pub buf : Option ℕ
  pub len : ℕ

pub record Reorder : Type 0 where
  pub seq : ℕ
  pub buf : Option ℕ
  pub len : ℕ
  pub valid : Bool

pub record FragAsm : Type 0 where
  pub seq : ℕ
  pub total : ℕ
  pub have : ℕ
  pub bitmask : ℕ
  pub buf : Option ℕ
  pub offsets : ℕ → ℕ
  pub active : Bool

-- `struct netchan_chan` without `conn`, which is the connection whose pool the channel stands in.
-- `content_type` holds the bytes before the NUL.
pub record Chan : Type 0 where
  pub id : ℕ
  pub type : ℕ
  pub dir : ℕ
  pub role : ℕ
  pub state : ℕ
  pub content_type : List ℕ
  pub send_seq : ℕ
  pub send_window : ℕ
  pub bytes_in_flight : ℕ
  pub outgoing : ℕ → Outgoing
  pub out_head : ℕ
  pub out_tail : ℕ
  pub recv_seq : ℕ
  pub recv_window : ℕ
  pub recv_buffered : ℕ
  pub recv_queue : ℕ → RecvEntry
  pub rq_head : ℕ
  pub rq_tail : ℕ
  pub reorder : ℕ → Reorder
  pub frags : ℕ → FragAsm
  pub need_ack : Bool
  pub ack_seq : ℕ
  pub need_window_update : Bool
  pub msgs_sent : ℕ
  pub msgs_acked : ℕ
  pub retransmissions : ℕ
  pub msgs_recv : ℕ

-- The message-buffer pool: `free` is the stack of free indices, its top first, so that
-- `pool_free_top` is its length; `store` is the flat array `pool_store` of 64 * 2048 bytes. Behind it in
-- the structure stand the event ring and `ctrl_buf`: `overrun` is set for good once a copy into the
-- array, or the move of a fragment, has reached past it, and what the code does from then on is undefined and not modelled.
pub record Pool : Type 0 where
  pub free : List ℕ
  pub store : ℕ → ℕ
  pub overrun : Bool

pub record EvQueue : Type 0 where
  pub events : ℕ → Event
  pub ev_head : ℕ
  pub ev_tail : ℕ

-- `struct netchan_conn`. `ctrl_buf` holds the bytes in use, so that `ctrl_len` is its length.
pub record Conn : Type 0 where
  pub local_id : ℕ
  pub remote_id : ℕ
  pub server : Bool
  pub state : ConnState
  pub peer_addr : Addr
  pub next_pkt_num : ℕ
  pub last_recv_ms : ℕ
  pub last_send_ms : ℕ
  pub connect_sent_ms : ℕ
  pub connect_attempts : ℕ
  pub ping_sent_ms : ℕ
  pub ping_opaque : ℕ
  pub rtt_ms : ℕ
  pub rtt_min_ms : ℕ
  pub pkts_sent : ℕ
  pub pkts_recv : ℕ
  pub cfg : Cfg
  pub channels : ℕ → Option ℕ
  pub next_chan_id : ℕ
  pub chan_pool : ℕ → Chan
  pub chan_used : ℕ → Bool
  pub pool : Pool
  pub evq : EvQueue
  pub ctrl_buf : List ℕ

-- What the operating system answers: the k-th reading of the clock in a call, what the k-th read
-- of /dev/urandom yields (0 when it fails), and the address of a stack variable.
pub record Env : Type 0 where
  pub now : ℕ → ℕ
  pub entropy : ℕ → ℕ
  pub here : ℕ
