-- ===== src/Events.antt =====
-- The event queue of src/netchan.c: ev_push, ev_push_redirect and netchan_poll.
pub mod Fifo
use netchan.Base.{◌==◌, if◌then◌else◌, ℕ, ◌+◌, ◌%◌, Option, none, some, update, replicate}
use netchan.Types.{event_queue, EvType, ev_redirect, Addr, Event, EvQueue}

abbrev pub no_addr : Addr
no_addr = record { len = 0; a = replicate 20 0 }

unfoldable pub push_event : EvQueue → Event → EvQueue
push_event q e =
    let next = (q.ev_tail + 1) % event_queue in
    if next == q.ev_head
    then q
    else record q { events = update q.events q.ev_tail e; ev_tail = next }

unfoldable pub ev_push : EvQueue → EvType → Option ℕ → EvQueue
ev_push q t s =
    push_event q (record { type = t; ch = s; redirect_addr = no_addr; redirect_conn_id = 0 })

unfoldable pub ev_push_redirect : EvQueue → Addr → ℕ → EvQueue
ev_push_redirect q addr conn_id =
    push_event q
      (record { type = ev_redirect; ch = none; redirect_addr = addr; redirect_conn_id = conn_id })

-- `none` where netchan_poll returns 0.
unfoldable pub netchan_poll : EvQueue → Option Event × EvQueue
netchan_poll q =
    if q.ev_head == q.ev_tail
    then (none, q)
    else (some (q.events q.ev_head), record q { ev_head = (q.ev_head + 1) % event_queue })
