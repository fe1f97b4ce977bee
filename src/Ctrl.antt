-- ===== src/Ctrl.antt =====
-- The control frame queue of src/netchan.c: ctrl_reserve and the frames appended to it. A frame
-- that does not fit is dropped whole.
use netchan.Base.{ltb, if◌then◌else◌, ℕ, ◌+◌, ◌%◌, min, length, take, List, [], ◌∷◌, ◌++◌}
use netchan.Types.{version, ctrl_buf_size, Chan, Conn}
use netchan.Wire.{wr16, wr32}

-- ctrl_reserve(c, n), and the n bytes that the caller writes there.
unfoldable pub ctrl_reserve : Conn → List ℕ → Conn
ctrl_reserve c frame =
    if ltb ctrl_buf_size (length c.ctrl_buf + length frame)
    then c
    else record c { ctrl_buf = c.ctrl_buf ++ frame }

unfoldable pub ctrl_connect_init : Conn → Conn
ctrl_connect_init c = ctrl_reserve c (1 ∷ wr32 c.local_id ++ (version ∷ []))

unfoldable pub ctrl_connect_accept : Conn → Conn
ctrl_connect_accept c =
    ctrl_reserve c (2 ∷ wr32 c.local_id ++ (version ∷ wr32 c.cfg.idle_timeout_ms))

unfoldable pub ctrl_disconnect : Conn → ℕ → Conn
ctrl_disconnect c reason = ctrl_reserve c (4 ∷ wr16 reason)

unfoldable pub ctrl_ping : Conn → ℕ → Conn
ctrl_ping c opaque = ctrl_reserve c (5 ∷ wr32 opaque)

unfoldable pub ctrl_pong : Conn → ℕ → Conn
ctrl_pong c opaque = ctrl_reserve c (6 ∷ wr32 opaque)

unfoldable pub ctrl_channel_open : Conn → Chan → Conn
ctrl_channel_open c ch =
    let ct_len = min 63 (length ch.content_type) in
    ctrl_reserve c (7 ∷ ch.id ∷ ch.type % 256 ∷ ch.dir % 256 ∷ ct_len ∷ take ct_len ch.content_type)

unfoldable pub ctrl_channel_close : Conn → ℕ → ℕ → Conn
ctrl_channel_close c chan_id error = ctrl_reserve c (8 ∷ chan_id ∷ wr16 error)

unfoldable pub ctrl_window_update : Conn → ℕ → ℕ → Conn
ctrl_window_update c chan_id window = ctrl_reserve c (11 ∷ chan_id ∷ wr32 window)
