-- ===== src/Connection.antt =====
-- The identity and the life cycle of a connection in src/netchan.c: nc_random_id,
-- netchan_cfg_default, netchan_open, netchan_config, netchan_connect, netchan_accept,
-- netchan_disconnect and netchan_close.
pub mod Identity
use Prim.Native.Nat.{bit_xor}
use netchan.Base.{
  ◌==◌, if◌then◌else◌, ℕ, zero, suc, ◌*◌, ◌/◌, ◌%◌, Bool, false, not, ◌&&◌, ◌||◌, none, [], u32_mod,
}
use netchan.BufferPool.{pool_init}
use netchan.Channel.{chan_reset_bufs, chan_free}
use netchan.Ctrl.{ctrl_connect_init, ctrl_connect_accept, ctrl_disconnect}
use netchan.Events.{ev_push, no_addr}
use netchan.Types.{
  max_channels, new, connecting, connected, closing, ev_none, ev_connected, err_generic, Result, ok,
  err, is_new, is_connecting, is_connected, Addr, Cfg, Event, Conn, Env,
}

-- `entropy` is what /dev/urandom yields, 0 if it fails.
unfoldable pub nc_random_id : ℕ → ℕ → ℕ → ℕ
nc_random_id entropy now here =
    let id =
      if entropy == 0
      then bit_xor (now * 2654435761 % u32_mod) (bit_xor (here % u32_mod) (here / 65536 % u32_mod))
      else entropy in
    if id == 0 then 1 else id

unfoldable pub random_id : Env → ℕ → ℕ
random_id env k = nc_random_id (env.entropy k) (env.now k) env.here

unfoldable pub netchan_cfg_default : Cfg
netchan_cfg_default = record {
  mtu = 1200;
  chan_window = 65536;
  idle_timeout_ms = 30000;
  retransmit_ms = 100;
}

abbrev pub no_event : Event
no_event = record { type = ev_none; ch = none; redirect_addr = no_addr; redirect_conn_id = 0 }

-- calloc has succeeded.
unfoldable pub netchan_open : Bool → Conn
netchan_open server = record {
  local_id = 0;
  remote_id = 0;
  server = server;
  state = new;
  peer_addr = no_addr;
  next_pkt_num = 0;
  last_recv_ms = 0;
  last_send_ms = 0;
  connect_sent_ms = 0;
  connect_attempts = 0;
  ping_sent_ms = 0;
  ping_opaque = 0;
  rtt_ms = 100;
  rtt_min_ms = 0;
  pkts_sent = 0;
  pkts_recv = 0;
  cfg = netchan_cfg_default;
  channels = λ _. none;
  next_chan_id = if server then 1 else 0;
  chan_pool = λ _. chan_reset_bufs;
  chan_used = λ _. false;
  pool = pool_init (λ _. 0);
  evq = record { events = λ _. no_event; ev_head = 0; ev_tail = 0 };
  ctrl_buf = [];
}

unfoldable pub netchan_config : Conn → Cfg → Conn
netchan_config c cfg = record c { cfg = cfg }

unfoldable pub netchan_connect : Env → Conn → Addr → Conn × Result (Unit {0})
netchan_connect env c addr = if c.server || not (is_new c.state) then (c, err err_generic) else (
  record (ctrl_connect_init
      (record c { local_id = random_id env 0; peer_addr = addr; state = connecting })) {
        connect_sent_ms = env.now 1;
        connect_attempts = 1;
      },
  ok tt,
)

unfoldable pub netchan_accept : Conn → Conn × Result (Unit {0})
netchan_accept c =
    if c.server && is_connecting c.state
    then (let c' = ctrl_connect_accept c in
        (record c' { state = connected; evq = ev_push c'.evq ev_connected none }, ok tt))
    else (c, err err_generic)

unfoldable pub netchan_disconnect : Conn → Conn
netchan_disconnect c =
    if is_connected c.state then record (ctrl_disconnect c 0) { state = closing } else c

-- netchan_close frees the channels and then the connection; this is the connection that it frees.
unfoldable pub close_channels : ℕ → Conn → Conn
close_channels zero c = c
close_channels (suc n) c = let c' = close_channels n c in chan_free c' (c'.channels n)

unfoldable pub netchan_close : Conn → Conn
netchan_close c = close_channels max_channels c
