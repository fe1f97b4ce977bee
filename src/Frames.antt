-- ===== src/Frames.antt =====
-- The frame handlers of src/netchan.c other than those for DATA and ACK: process_connect_init to
-- process_channel_close, and process_window_update. `p` is the rest of the packet, from the
-- frame's first byte on; k is the position of that byte, by which `Env` is asked.
pub mod Lifecycle
use netchan.Base.{
  ltb, ◌==◌, if◌then◌else◌, ℕ, ◌+◌, ◌-◌, not, ◌&&◌, ◌||◌, Option, none, some, update, length, take,
  drop, replicate, List, ◌∷◌, ◌++◌, sub32,
}
use netchan.Channel.{chan_new}
use netchan.Connection.{random_id}
use netchan.Ctrl.{ctrl_pong, ctrl_channel_close, ctrl_window_update}
use netchan.Data.{Reply}
use netchan.Events.{ev_push, ev_push_redirect}
use netchan.Types.{
  version, dir_send, sender, receiver, chan_opening, chan_opened, chan_closed, ConnState, new,
  connecting, connected, closing, closed, ev_connected, ev_disconnected, ev_chan_open,
  ev_chan_close, err_proto, ok, err, Addr, Conn, Env,
}
use netchan.Wire.{byte_at, rd32}

-- A new server takes an id and waits to be accepted.
unfoldable pub hello : Env → ℕ → Conn → ConnState → Conn
hello env k c new = record c { local_id = random_id env k; state = connecting }
hello env k c _ = c

unfoldable pub process_connect_init : Env → ℕ → Conn → List ℕ → Reply
process_connect_init env k c p =
    if ltb (length p) 6
    then (c, err err_proto)
    else if not c.server
    then (c, err err_proto)
    else if not (byte_at p 5 == version)
    then (c, err err_proto)
    else (hello env k (record c { remote_id = rd32 p 1 }) c.state, ok 6)

-- The version and the idle timeout that the frame carries are not looked at.
unfoldable pub process_connect_accept : Conn → List ℕ → Reply
process_connect_accept c p =
    if ltb (length p) 10 then (c, err err_proto) else if c.server then (c, err err_proto) else (
      record c { remote_id = rd32 p 1; state = connected; evq = ev_push c.evq ev_connected none },
      ok 10,
    )

-- The address of n bytes, its family first, in an array that is zero elsewhere.
abbrev pub redirect_target : ℕ → ℕ → List ℕ → Addr
redirect_target n family bytes = record { len = n; a = family ∷ (bytes ++ replicate (20 - n) 0) }

unfoldable pub process_connect_redirect : Conn → List ℕ → Reply
process_connect_redirect c p =
    if ltb (length p) 12
    then (c, err err_proto)
    else if byte_at p 5 == 4
    then (
      record c {
        evq = ev_push_redirect c.evq (redirect_target 7 4 (take 6 (drop 6 p))) (rd32 p 1);
      },
      ok 12,
    )
    else if byte_at p 5 == 6
    then if ltb (length p) 24 then (c, err err_proto) else (
      record c {
        evq = ev_push_redirect c.evq (redirect_target 19 6 (take 18 (drop 6 p))) (rd32 p 1);
      },
      ok 24,
    )
    else (c, err err_proto)

unfoldable pub disconnected : Conn → ConnState → Conn
disconnected c connecting = record c { state = closed; evq = ev_push c.evq ev_disconnected none }
disconnected c connected = record c { state = closed; evq = ev_push c.evq ev_disconnected none }
disconnected c closing = record c { state = closed }
disconnected c _ = c

unfoldable pub process_disconnect : Conn → List ℕ → Reply
process_disconnect c p =
    if ltb (length p) 3 then (c, err err_proto) else (disconnected c c.state, ok 3)

unfoldable pub process_ping : Conn → List ℕ → Reply
process_ping c p = if ltb (length p) 5 then (c, err err_proto) else (ctrl_pong c (rd32 p 1), ok 5)

unfoldable pub process_pong : Env → ℕ → Conn → List ℕ → Reply
process_pong env k c p =
    if ltb (length p) 5
    then (c, err err_proto)
    else if rd32 p 1 == c.ping_opaque && not (c.ping_sent_ms == 0)
    then (let rtt = sub32 (env.now k) c.ping_sent_ms in
        (
          record c {
            rtt_ms = rtt;
            rtt_min_ms = if c.rtt_min_ms == 0 || ltb rtt c.rtt_min_ms then rtt else c.rtt_min_ms;
            ping_sent_ms = 0;
          },
          ok 5,
        ))
    else (c, ok 5)

unfoldable pub set_chan_state : Conn → ℕ → ℕ → Conn
set_chan_state c s state = record c {
  chan_pool = update c.chan_pool s (record (c.chan_pool s) { state = state });
}

-- What process_channel_open does with the result of chan_new.
unfoldable pub opened_by_peer : ℕ → ℕ → Option ℕ × Conn → Conn
opened_by_peer chan_id local_role (none, c) = ctrl_channel_close c chan_id 1
opened_by_peer chan_id local_role (some s, c) =
    let c₁ = set_chan_state c s chan_opened in
    let c₂ =
      if local_role == receiver
      then ctrl_window_update c₁ chan_id (c₁.chan_pool s).recv_window
      else c₁ in
    record c₂ { evq = ev_push c₂.evq ev_chan_open (some s) }

unfoldable pub open_request : Conn → Option ℕ → ℕ → ℕ → ℕ → List ℕ → Conn
open_request c (some s) chan_id type dir ct = ctrl_channel_close c chan_id 1
open_request c none chan_id type dir ct =
    let local_role = if dir == dir_send then receiver else sender in
    opened_by_peer chan_id local_role (chan_new c chan_id type dir local_role (some ct))

unfoldable pub process_channel_open : Conn → List ℕ → Reply
process_channel_open c p =
    if ltb (length p) 5
    then (c, err err_proto)
    else let ct_len = byte_at p 4 in
      if ltb (length p) (5 + ct_len) then (c, err err_proto) else (
        open_request c (c.channels (byte_at p 1)) (byte_at p 1) (byte_at p 2) (byte_at p 3)
            (take (if ltb ct_len 63 then ct_len else 63) (drop 5 p)),
        ok (5 + ct_len),
      )

unfoldable pub close_on : Conn → Option ℕ → Conn
close_on c none = c
close_on c (some s) =
    let c' = set_chan_state c s chan_closed in
    record c' { evq = ev_push c'.evq ev_chan_close (some s) }

unfoldable pub process_channel_close : Conn → List ℕ → Reply
process_channel_close c p =
    if ltb (length p) 4 then (c, err err_proto) else (close_on c (c.channels (byte_at p 1)), ok 4)

-- The first window update accepts a channel that is opening.
unfoldable pub window_on : Conn → Option ℕ → ℕ → Conn
window_on c none window = c
window_on c (some s) window =
    let ch = c.chan_pool s in
    if ch.role == sender
    then record c {
      chan_pool = update c.chan_pool s (record ch {
        send_window = window;
        state = if ch.state == chan_opening then chan_opened else ch.state;
      });
    }
    else c

unfoldable pub process_window_update : Conn → List ℕ → Reply
process_window_update c p =
    if ltb (length p) 6
    then (c, err err_proto)
    else (window_on c (c.channels (byte_at p 1)) (rd32 p 2), ok 6)
