-- ===== src/Acks/Window.antt =====
-- What an acknowledgement does to the sender's window.
use netchan.Base.{if◌then◌else◌, ℕ, false, ◌&&◌, none, diff_le_zero}
use netchan.Types.{Outgoing}

-- An entry after an acknowledgement up to acked_seq.
unfoldable pub acked_entry : ℕ → Outgoing → Outgoing
acked_entry acked_seq o =
    if o.active && diff_le_zero o.seq acked_seq then record o { buf = none; active = false } else o
