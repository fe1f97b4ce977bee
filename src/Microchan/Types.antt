-- ===== src/Microchan/Types.antt =====
-- The constants and structures of microchan/src/microchan.c and microchan.h. An array is a function of
-- its index, a message the list of the bytes of it that are in use, a pointer to a channel its index.
use netchan.Base.{ℕ, ◌-◌, Bool, true, false, Option, none, replicate, List, []}

abbrev pub mc_mtu : ℕ
mc_mtu = 546

abbrev pub mc_window : ℕ
mc_window = 8

abbrev pub mc_max_chan : ℕ
mc_max_chan = 2

abbrev pub mc_recvq : ℕ
mc_recvq = mc_window

abbrev pub mc_unrel_txq : ℕ
mc_unrel_txq = 4

abbrev pub mc_hdr : ℕ
mc_hdr = 8

abbrev pub mc_rec : ℕ
mc_rec = 6

abbrev pub mc_maxmsg : ℕ
mc_maxmsg = mc_mtu - 8 - 6

abbrev pub mt_unrel : ℕ
mt_unrel = 0

abbrev pub mt_rel : ℕ
mt_rel = 1

abbrev pub rt_ms : ℕ
rt_ms = 120

abbrev pub rt_max_ms : ℕ
rt_max_ms = 1000

abbrev pub rt_attempts : ℕ
rt_attempts = 12

abbrev pub mc_connect_retry_ms : ℕ
mc_connect_retry_ms = 250

abbrev pub mc_connect_retries : ℕ
mc_connect_retries = 240

abbrev pub keepalive_ms : ℕ
keepalive_ms = 1000

abbrev pub idle_ms : ℕ
idle_ms = 10000

abbrev pub mc_eventq : ℕ
mc_eventq = 8

abbrev pub mc_reliable : ℕ
mc_reliable = 0

abbrev pub mc_unreliable : ℕ
mc_unreliable = 1

-- The PKT_ constants.
abbrev pub pkt_syn : ℕ
pkt_syn = 1

abbrev pub pkt_synack : ℕ
pkt_synack = 2

abbrev pub pkt_ack : ℕ
pkt_ack = 3

abbrev pub pkt_data : ℕ
pkt_data = 4

abbrev pub pkt_fin : ℕ
pkt_fin = 5

-- The MC_STATE_ constants.
pub data McState : Type 0 where
  state_closed state_connecting state_connected state_closing : McState

abbrev pub is_closed : McState → Bool
is_closed state_closed = true
is_closed _ = false

abbrev pub is_opening : McState → Bool
is_opening state_connecting = true
is_opening _ = false

abbrev pub is_up : McState → Bool
is_up state_connected = true
is_up _ = false

-- The MC_EV_ constants.
pub data McEvType : Type 0 where
  mc_ev_none mc_ev_connected mc_ev_disconnected mc_ev_data mc_ev_redirect : McEvType

-- MC_ERR and the causes.
pub data McError : Type 0 where
  mc_err mc_err_nomem mc_err_again mc_err_closed mc_err_toobig mc_err_proto : McError

pub record McAddr : Type 0 where
  pub len : ℕ
  pub a : List ℕ

pub record McEvent : Type 0 where
  pub type : McEvType
  pub ch : Option ℕ
  pub redirect_addr : McAddr
  pub redirect_id : ℕ

pub record McChan : Type 0 where
  pub used : Bool
  pub type : ℕ
  pub id : ℕ
  pub rxq : ℕ → List ℕ
  pub rx_head : ℕ
  pub rx_count : ℕ

pub record TxSlot : Type 0 where
  pub seq : ℕ
  pub chan : ℕ
  pub bytes : List ℕ

pub record Microchan : Type 0 where
  pub is_server : Bool
  pub state : McState
  pub local_id : ℕ
  pub remote_id : ℕ
  pub peer : McAddr
  pub now : ℕ
  pub last_recv : ℕ
  pub last_send : ℕ
  pub send_syn : Bool
  pub send_synack : Bool
  pub send_ack : Bool
  pub connect_timer : ℕ
  pub connect_attempts : ℕ
  pub txw : ℕ → TxSlot
  pub tx_base : ℕ
  pub tx_next : ℕ
  pub tx_unsent : ℕ
  pub tx_timer : ℕ
  pub tx_attempts : ℕ
  pub rx_next : ℕ
  pub ack_pending : Bool
  pub txu : ℕ → List ℕ
  pub txu_chan : ℕ → ℕ
  pub txu_head : ℕ
  pub txu_count : ℕ
  pub chan : ℕ → McChan
  pub evq : ℕ → McEvent
  pub ev_head : ℕ
  pub ev_count : ℕ

abbrev pub no_mc_addr : McAddr
no_mc_addr = record { len = 0; a = replicate 12 0 }

abbrev pub no_mc_event : McEvent
no_mc_event = record { type = mc_ev_none; ch = none; redirect_addr = no_mc_addr; redirect_id = 0 }

abbrev pub no_mc_chan : McChan
no_mc_chan = record { used = false; type = 0; id = 0; rxq = λ i. []; rx_head = 0; rx_count = 0 }

abbrev pub no_tx_slot : TxSlot
no_tx_slot = record { seq = 0; chan = 0; bytes = [] }
