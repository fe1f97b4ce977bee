-- ===== src/Safety/Calls.antt =====
-- The calls of src/netchan.h as steps of a connection, and what every history of calls keeps true
-- of its storage.
use netchan.Base.{
  ltb, leb, ◌==◌, Bool-cases, is_some, ℕ, ◌+◌, ◌≡◌, refl, inl, inr, Bool, false, not, ◌&&◌, ◌||◌,
  Option, none, some, arith, sum_below-zero, length, List, [],
}
use netchan.Api.{
  opened_locally, netchan_chan_open, netchan_chan_close, netchan_chan_write, netchan_chan_read,
}
use netchan.Api.Ownership.{write_chan-Held, read_chan-Held}
use netchan.BufferPool.Laws.{count-pool_init}
use netchan.Channel.{max_frag_payload, chan_reset_bufs}
use netchan.Channel.Ownership.{owned}
use netchan.Connection.{
  random_id, netchan_open, netchan_config, netchan_connect, netchan_accept, netchan_disconnect,
}
use netchan.Ctrl.{
  ctrl_reserve, ctrl_connect_init, ctrl_connect_accept, ctrl_disconnect, ctrl_channel_open,
  ctrl_channel_close, ctrl_window_update,
}
use netchan.Events.{netchan_poll}
use netchan.Packet.{netchan_feed}
use netchan.Packet.Cases.{After}
use netchan.Safety.{ConnInv, Live, put_chan-StoreInv}
use netchan.Safety.Frames.{ctrl_reserve-ConnInv, set_chan_state-ConnInv}
use netchan.Safety.Opening.{fresh-ChanInv, fresh-owned, chan_new-ConnInv, chan_new-Live}
use netchan.Safety.Packets.{netchan_feed-ConnInv}
use netchan.Safety.Sending.{netchan_send_next-ConnInv}
use netchan.Safety.Timers.{netchan_service-ConnInv}
use netchan.Send.{netchan_send_next}
use netchan.Service.{netchan_service}
use netchan.Types.{
  ctrl_buf_size, receiver, chan_opened, chan_closing, connecting, Result, is_new, is_connecting,
  is_connected, Addr, Cfg, Conn, Env,
}

ctrl_reserve-Live : (c : Conn) (frame : List ℕ) (s : ℕ) → Live c s → Live (ctrl_reserve c frame) s
unfolding ctrl_reserve
ctrl_reserve-Live c frame s live =
    elim (Bool-cases (ltb ctrl_buf_size (length c.ctrl_buf + length frame))) [
      | inl full ↦ rw full live
      | inr fits ↦ rw fits live
    ]

-- At the start all 64 buffers are free and no slot is in use.
pub netchan_open-ConnInv : (server : Bool) → ConnInv (netchan_open server)
unfolding netchan_open chan_reset_bufs
netchan_open-ConnInv server = record {
  in_shape = λ s. fresh-ChanInv 0 0 0 0 0 0 0 [];
  total = λ b. omega (
    arith,
    count-pool_init b (λ _. 0),
    sum_below-zero (λ s. owned b chan_reset_bufs) 16 (λ s. fresh-owned b),
  );
  named = λ id s e. absurd (ground arith);
  unused = λ s b l f. fresh-owned b;
}

netchan_connect-ConnInv :
    (env : Env) (c : Conn) (addr : Addr) → ConnInv c → ConnInv (netchan_connect env c addr).0
unfolding netchan_connect ctrl_connect_init
netchan_connect-ConnInv env c addr v = elim (Bool-cases (c.server || not (is_new c.state))) [
  | inl refused ↦ rw refused v
  | inr starts ↦ rw starts (
      ctrl_reserve-ConnInv
        (record c { local_id = random_id env 0; peer_addr = addr; state = connecting }) _ v)
]

netchan_accept-ConnInv : (c : Conn) → ConnInv c → ConnInv (netchan_accept c).0
unfolding netchan_accept ctrl_connect_accept
netchan_accept-ConnInv c v = elim (Bool-cases (c.server && is_connecting c.state)) [
  | inl granted ↦ rw granted (ctrl_reserve-ConnInv c _ v)
  | inr refused ↦ rw refused v
]

netchan_disconnect-ConnInv : (c : Conn) → ConnInv c → ConnInv (netchan_disconnect c)
unfolding netchan_disconnect ctrl_disconnect
netchan_disconnect-ConnInv c v = elim (Bool-cases (is_connected c.state)) [
  | inl live ↦ rw live (ctrl_reserve-ConnInv c _ v)
  | inr idle ↦ rw idle v
]

opened_locally-ConnInv :
    (id local_role : ℕ) (made : Option ℕ × Conn)
    → ((s : ℕ) → made.0 ≡ some s → Live made.1 s)
    → ConnInv made.1
    → ConnInv (opened_locally id local_role made).1
unfolding opened_locally ctrl_channel_open ctrl_window_update
opened_locally-ConnInv id local_role (none, c) live v = v
opened_locally-ConnInv id local_role (some s, c) live v =
    elim (Bool-cases (local_role == receiver)) [
      | inr ours ↦ rw ours (ctrl_reserve-ConnInv c _ v)
      | inl theirs ↦ rw theirs (
          set_chan_state-ConnInv _ s chan_opened
            (ctrl_reserve-Live _ _ s (ctrl_reserve-Live c _ s (live s refl)))
            (ctrl_reserve-ConnInv _ _ (ctrl_reserve-ConnInv c _ v)))
    ]

netchan_chan_open-ConnInv :
    (c : Conn) (type dir : ℕ) (name : Option (List ℕ))
    → ConnInv c
    → ConnInv (netchan_chan_open c type dir name).1
unfolding netchan_chan_open
netchan_chan_open-ConnInv c type dir name v =
    elim (Bool-cases (not (is_connected c.state) || is_some (c.channels c.next_chan_id))) [
      | inl refused ↦ rw refused v
      | inr granted ↦ rw granted (
          opened_locally-ConnInv c.next_chan_id _ _ (chan_new-Live _ _ _ _ _ name)
            (chan_new-ConnInv _ c.next_chan_id type dir _ name v))
    ]

netchan_chan_close-ConnInv :
    (c : Conn) (s : ℕ) → Live c s → ConnInv c → ConnInv (netchan_chan_close c (some s))
unfolding netchan_chan_close ctrl_channel_close
netchan_chan_close-ConnInv c s live v = elim (Bool-cases (leb 2 (c.chan_pool s).state)) [
  | inl gone ↦ rw gone v
  | inr still ↦ rw still (
      set_chan_state-ConnInv _ s chan_closing (ctrl_reserve-Live c _ s live)
        (ctrl_reserve-ConnInv c _ v))
]

netchan_chan_write-ConnInv :
    (c : Conn) (s : ℕ) (bytes : List ℕ)
    → Live c s
    → ConnInv c
    → ConnInv (netchan_chan_write c (some s) bytes).1
unfolding netchan_chan_write
netchan_chan_write-ConnInv c s bytes live v =
    put_chan-StoreInv s _ _ live.0 live.1
      (λ b n h. write_chan-Held (max_frag_payload c.cfg) (c.chan_pool s) c.pool bytes h) v

netchan_chan_read-ConnInv :
    (c : Conn) (s buflen : ℕ)
    → Live c s
    → ConnInv c
    → ConnInv (netchan_chan_read c (some s) buflen).1
unfolding netchan_chan_read
netchan_chan_read-ConnInv c s buflen live v =
    put_chan-StoreInv s _ _ live.0 live.1 (λ b n h. read_chan-Held (c.chan_pool s) c.pool buflen h)
      v

-- One call on a connection. A channel is used through the slot of an open channel.
pub data Step (c : Conn) : Conn → Type 0 where
  configures : (cfg : Cfg) → Step c (netchan_config c cfg)
  connects : (env : Env) (addr : Addr) → Step c (netchan_connect env c addr).0
  accepts : Step c (netchan_accept c).0
  disconnects : Step c (netchan_disconnect c)
  feeds :
      (env : Env) (pkt : List ℕ) (from : Option Addr) (result : Result (Unit {0})) {c' : Conn}
      → netchan_feed env c pkt from ≡ some (c', result)
      → Step c c'
  sends : (env : Env) (buflen : ℕ) → Step c (netchan_send_next env c buflen).1
  services : (env : Env) (now_ms : ℕ) → Step c (netchan_service env c now_ms).0
  opens : (type dir : ℕ) (name : Option (List ℕ)) → Step c (netchan_chan_open c type dir name).1
  closes : (s : ℕ) → Live c s → Step c (netchan_chan_close c (some s))
  writes : (s : ℕ) (bytes : List ℕ) → Live c s → Step c (netchan_chan_write c (some s) bytes).1
  reads : (s buflen : ℕ) → Live c s → Step c (netchan_chan_read c (some s) buflen).1
  polls : Step c (record c { evq = (netchan_poll c.evq).1 })

-- A history of calls.
pub data Reach (c : Conn) : Conn → Type 0 where
  start : Reach c c
  and_then : {d e : Conn} → Reach c d → Step d e → Reach c e

feed-ConnInv :
    (c' : Conn) (result : Result (Unit {0})) (o : Option (Conn × Result (Unit {0})))
    → o ≡ some (c', result)
    → After ConnInv o
    → ConnInv c'
feed-ConnInv c' result o e v = rw e at v

-- Every call keeps the storage sound, as far as the model goes: until a copy leaves pool_store.
pub Step-ConnInv : {c d : Conn} → Step c d → ConnInv c → ConnInv d
unfolding netchan_config
Step-ConnInv (configures cfg) v = v
Step-ConnInv {c} (connects env addr) v = netchan_connect-ConnInv env c addr v
Step-ConnInv {c} accepts v = netchan_accept-ConnInv c v
Step-ConnInv {c} disconnects v = netchan_disconnect-ConnInv c v
Step-ConnInv {c} (feeds env pkt from result {c'} e) v =
    feed-ConnInv c' result _ e (netchan_feed-ConnInv env c pkt from v)
Step-ConnInv {c} (sends env buflen) v = netchan_send_next-ConnInv env c buflen v
Step-ConnInv {c} (services env now_ms) v = netchan_service-ConnInv env c now_ms v
Step-ConnInv {c} (opens type dir name) v = netchan_chan_open-ConnInv c type dir name v
Step-ConnInv {c} (closes s live) v = netchan_chan_close-ConnInv c s live v
Step-ConnInv {c} (writes s bytes live) v = netchan_chan_write-ConnInv c s bytes live v
Step-ConnInv {c} (reads s buflen live) v = netchan_chan_read-ConnInv c s buflen live v
Step-ConnInv polls v = v

Reach-ConnInv : {c d : Conn} → ConnInv c → Reach c d → ConnInv d
Reach-ConnInv v start = v
Reach-ConnInv v (and_then r st) = Step-ConnInv st (Reach-ConnInv v r)

-- After any history of calls from netchan_open on in which no copy has left pool_store, every channel
-- is in shape, each of the 64 buffers is in exactly one place, free or in one slot of one channel, the
-- channel table names slots in use, and a slot that is not in use holds no buffer.
pub reachable-ConnInv :
    (server : Bool) {c : Conn} → Reach (netchan_open server) c → c.pool.overrun ≡ false → ConnInv c
reachable-ConnInv server r inside = Reach-ConnInv (netchan_open-ConnInv server) r
