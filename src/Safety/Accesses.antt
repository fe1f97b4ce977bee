-- ===== src/Safety/Accesses.antt =====
-- Which calls of src/netchan.h can leave pool_store: netchan_feed alone.
use netchan.Base.{
  ltb, leb, ◌==◌, Bool-cases, is_some, ℕ, ◌≤◌, ◌≡◌, refl, ◌∙◌, inl, inr, Bool, true, false, not,
  ◌&&◌, ◌||◌, Option, none, some, arith, length, List, ℤ, sub32,
}
use netchan.Api.{
  opened_locally, netchan_chan_open, netchan_chan_close, frag_count, Written, queue_as, queue_entry,
  write_chan, netchan_chan_write, read_chan, netchan_chan_read,
}
use netchan.Api.Ownership.{write_chan_cases}
use netchan.BufferPool.{pool_get, pool_ptr, pool_write}
use netchan.BufferPool.Bounds.{last_buffer, pool_write-overrun}
use netchan.BufferPool.Laws.{count-pool_get}
use netchan.Channel.{max_frag_payload, find_slot, place_chan, chan_new}
use netchan.Connection.{random_id, netchan_config}
use netchan.Ctrl.{
  ctrl_connect_init, ctrl_ping, ctrl_channel_open, ctrl_channel_close, ctrl_window_update,
}
use netchan.Frames.{set_chan_state}
use netchan.Receive.Bounds.{in_store, pool_get-overrun, pool_put-overrun}
use netchan.Safety.{ConnInv}
use netchan.Safety.Calls.{
  Step, writes, connects, polls, opens, closes, reads, configures, accepts, disconnects, feeds,
  sends, services,
}
use netchan.Safety.Inside.{
  FlagIs, ctrl_reserve-FlagIs, netchan_connect-FlagIs, netchan_accept-FlagIs,
  netchan_disconnect-FlagIs, netchan_send_next-FlagIs,
}
use netchan.Service.{
  Serviced, give_up, retry_connect, check_idle, keepalive, service_channels, ◌then_timer◌,
  netchan_service,
}
use netchan.Types.{
  max_msg, connect_retry_ms, connect_retries, ping_interval_ms, receiver, ok, err, trap,
  is_connecting, is_connected, Chan, Pool, Conn, Env,
}

module _ (k : Bool) where
  then_timer-FlagIs :
      (r : Serviced) (f : Conn → ℤ → Serviced)
      → FlagIs k r.0.pool
      → ((c : Conn) (t : ℤ) → FlagIs k c.pool → FlagIs k (f c t).0.pool)
      → FlagIs k (r then_timer f).0.pool
  then_timer-FlagIs (c, ok t) f v keeps = keeps c t v
  then_timer-FlagIs (c, err e) f v keeps = v
  then_timer-FlagIs (c, trap) f v keeps = v

  retry_connect-FlagIs :
      (c : Conn) (now_ms : ℕ) → FlagIs k c.pool → FlagIs k (retry_connect c now_ms).0.pool
  unfolding retry_connect ctrl_connect_init give_up
  retry_connect-FlagIs c now_ms v = elim (Bool-cases (is_connecting c.state && not c.server)) [
    | inr e₁ ↦ rw e₁ v
    | inl e₁ ↦ elim (Bool-cases (ltb (sub32 now_ms c.connect_sent_ms) connect_retry_ms)) [
      | inl e₂ ↦ rw (e₁, e₂) v
      | inr e₂ ↦ elim (Bool-cases (leb connect_retries c.connect_attempts)) [
        | inl e₃ ↦ rw (e₁, e₂, e₃) v
        | inr e₃ ↦ rw (e₁, e₂, e₃) (ctrl_reserve-FlagIs k c _ v)
      ]
    ]
  ]

  check_idle-FlagIs :
      (c : Conn) (now_ms : ℕ) (next_ms : ℤ)
      → FlagIs k c.pool
      → FlagIs k (check_idle c now_ms next_ms).0.pool
  unfolding check_idle give_up
  check_idle-FlagIs c now_ms next_ms v =
      elim (Bool-cases (is_connected c.state && ltb 0 c.last_recv_ms)) [
        | inr e₁ ↦ rw e₁ v
        | inl e₁ ↦ elim (Bool-cases (leb c.cfg.idle_timeout_ms (sub32 now_ms c.last_recv_ms))) [
          | inl e₂ ↦ rw (e₁, e₂) v
          | inr e₂ ↦ rw (e₁, e₂) v
        ]
      ]

  keepalive-FlagIs :
      (env : Env) (c : Conn) (now_ms : ℕ) (next_ms : ℤ)
      → FlagIs k c.pool
      → FlagIs k (keepalive env c now_ms next_ms).0.pool
  unfolding keepalive ctrl_ping
  keepalive-FlagIs env c now_ms next_ms v =
      elim (Bool-cases (is_connected c.state && ltb 0 c.last_send_ms)) [
        | inr e₁ ↦ rw e₁ v
        | inl e₁ ↦ elim (Bool-cases (ltb (sub32 now_ms c.last_send_ms) ping_interval_ms)) [
          | inl e₂ ↦ rw (e₁, e₂) v
          | inr e₂ ↦ elim (Bool-cases (c.ping_sent_ms == 0)) [
            | inl e₃ ↦
                rw (e₁, e₂, e₃)
                  (ctrl_reserve-FlagIs k (record c { ping_opaque = random_id env 0 }) _ v)
            | inr e₃ ↦ rw (e₁, e₂, e₃) v
          ]
        ]
      ]

  netchan_service-FlagIs :
      (env : Env) (c : Conn) (now_ms : ℕ)
      → FlagIs k c.pool
      → FlagIs k (netchan_service env c now_ms).0.pool
  unfolding netchan_service service_channels
  netchan_service-FlagIs env c now_ms v =
      let idle : Conn → ℤ → Serviced = λ c₁ t. check_idle c₁ now_ms t in
      let channels : Conn → ℤ → Serviced = λ c₂ t. service_channels env c₂ now_ms t in
      then_timer-FlagIs (retry_connect c now_ms then_timer idle) channels
        (then_timer-FlagIs (retry_connect c now_ms) idle (retry_connect-FlagIs c now_ms v)
          (λ c₁ t. check_idle-FlagIs c₁ now_ms t))
        (λ c₂ t. keepalive-FlagIs env c₂ now_ms t)

  place_chan-FlagIs :
      (c : Conn) (slot : Option ℕ) (id type dir role : ℕ) (name : Option (List ℕ))
      → FlagIs k c.pool
      → FlagIs k (place_chan c slot id type dir role name).1.pool
  unfolding place_chan
  place_chan-FlagIs c none id type dir role name v = v
  place_chan-FlagIs c (some s) id type dir role name v = v

  opened_locally-FlagIs :
      (id local_role : ℕ) (made : Option ℕ × Conn)
      → FlagIs k made.1.pool
      → FlagIs k (opened_locally id local_role made).1.pool
  unfolding opened_locally ctrl_channel_open ctrl_window_update set_chan_state
  opened_locally-FlagIs id local_role (none, c) v = v
  opened_locally-FlagIs id local_role (some s, c) v = elim (Bool-cases (local_role == receiver)) [
    | inr ours ↦ rw ours (ctrl_reserve-FlagIs k c _ v)
    | inl theirs ↦ rw theirs (ctrl_reserve-FlagIs k _ _ (ctrl_reserve-FlagIs k c _ v))
  ]

  netchan_chan_open-FlagIs :
      (c : Conn) (type dir : ℕ) (name : Option (List ℕ))
      → FlagIs k c.pool
      → FlagIs k (netchan_chan_open c type dir name).1.pool
  unfolding netchan_chan_open chan_new
  netchan_chan_open-FlagIs c type dir name v =
      elim (Bool-cases (not (is_connected c.state) || is_some (c.channels c.next_chan_id))) [
        | inl refused ↦ rw refused v
        | inr granted ↦ rw granted (
            opened_locally-FlagIs c.next_chan_id _ _
              (place_chan-FlagIs _ (find_slot c.chan_used 0 16) c.next_chan_id type dir _ name v))
      ]

  netchan_chan_close-FlagIs :
      (c : Conn) (s : ℕ) → FlagIs k c.pool → FlagIs k (netchan_chan_close c (some s)).pool
  unfolding netchan_chan_close ctrl_channel_close set_chan_state
  netchan_chan_close-FlagIs c s v = elim (Bool-cases (leb 2 (c.chan_pool s).state)) [
    | inl gone ↦ rw gone v
    | inr still ↦ rw still (ctrl_reserve-FlagIs k c _ v)
  ]

  read_chan-FlagIs :
      (ch : Chan) (p : Pool) (buflen : ℕ) → FlagIs k p → FlagIs k (read_chan ch p buflen).2
  unfolding read_chan
  read_chan-FlagIs ch p buflen v = elim (Bool-cases (ch.role == receiver)) [
    | inr e₁ ↦ rw e₁ v
    | inl e₁ ↦ elim (Bool-cases (ch.rq_head == ch.rq_tail)) [
      | inl e₂ ↦ rw (e₁, e₂) v
      | inr e₂ ↦ rw (e₁, e₂) (pool_put-overrun p (ch.recv_queue ch.rq_head).buf ∙ v)
    ]
  ]

  queue_as-FlagIs :
      (ch : Chan) (bytes : List ℕ) (b : ℕ) (p : Pool) (frags : Option ℕ)
      → length bytes ≤ max_msg
      → pool_ptr (some b) ≤ last_buffer
      → FlagIs k p
      → FlagIs k (queue_as ch bytes b p frags).2
  unfolding queue_as
  queue_as-FlagIs ch bytes b p none h l v = pool_put-overrun p (some b) ∙ v
  queue_as-FlagIs ch bytes b p (some total) h l v =
      let kept = pool_write-overrun p (some b) 0 bytes l (λ _. omega arith) in
      elim (Bool-cases (ltb 32 total)) [
        | inl many ↦ rw many (pool_put-overrun (pool_write p (some b) 0 bytes) (some b) ∙ kept ∙ v)
        | inr few ↦ rw few (kept ∙ v)
      ]

  queue_entry-FlagIs :
      (fp : ℕ) (ch : Chan) (bytes : List ℕ) (got : Option ℕ × Pool)
      → length bytes ≤ max_msg
      → pool_ptr got.0 ≤ last_buffer
      → FlagIs k got.1
      → FlagIs k (queue_entry fp ch bytes got).2
  unfolding queue_entry
  queue_entry-FlagIs fp ch bytes (none, p) h l v = v
  queue_entry-FlagIs fp ch bytes (some b, p) h l v =
      queue_as-FlagIs ch bytes b p (frag_count fp (length bytes)) h l v

  write_chan-FlagIs :
      (fp : ℕ) (ch : Chan) (p : Pool) (bytes : List ℕ)
      → pool_ptr (pool_get p).0 ≤ last_buffer
      → FlagIs k p
      → FlagIs k (write_chan fp ch p bytes).2
  write_chan-FlagIs fp ch p bytes l v =
      write_chan_cases (λ (w : Written). FlagIs k w.2) fp ch p bytes (λ result. v)
        (λ room fits short.
          queue_entry-FlagIs fp ch bytes (pool_get p) short l (pool_get-overrun p ∙ v))

-- A buffer that the pool of a sound connection hands out is one of the 64.
ConnInv-got : (c : Conn) → ConnInv c → pool_ptr (pool_get c.pool).0 ≤ last_buffer
ConnInv-got c v =
    in_store (pool_get c.pool).0 (λ b l. ground (arith, count-pool_get b c.pool, v.total b))

-- Whether a call is netchan_feed.
abbrev pub is_feed : {c d : Conn} → Step c d → Bool
is_feed (feeds env pkt from result e) = true
is_feed (configures cfg) = false
is_feed (connects env addr) = false
is_feed accepts = false
is_feed disconnects = false
is_feed (sends env buflen) = false
is_feed (services env now_ms) = false
is_feed (opens type dir name) = false
is_feed (closes s live) = false
is_feed (writes s bytes live) = false
is_feed (reads s buflen live) = false
is_feed polls = false

-- On a connection with sound storage only netchan_feed can copy to a place past pool_store: any other
-- call leaves the flag overrun as it was, a write of any length to any open channel included.
pub Step-overrun :
    {c d : Conn} (st : Step c d) → ConnInv c → is_feed st ≡ false → d.pool.overrun ≡ c.pool.overrun
unfolding netchan_config netchan_chan_write netchan_chan_read
Step-overrun (feeds env pkt from result e) v h = cc
Step-overrun (configures cfg) v h = refl
Step-overrun {c} (connects env addr) v h = netchan_connect-FlagIs c.pool.overrun env c addr refl
Step-overrun {c} accepts v h = netchan_accept-FlagIs c.pool.overrun c refl
Step-overrun {c} disconnects v h = netchan_disconnect-FlagIs c.pool.overrun c refl
Step-overrun {c} (sends env buflen) v h = netchan_send_next-FlagIs c.pool.overrun env c buflen refl
Step-overrun {c} (services env now_ms) v h = netchan_service-FlagIs c.pool.overrun env c now_ms refl
Step-overrun {c} (opens type dir name) v h =
    netchan_chan_open-FlagIs c.pool.overrun c type dir name refl
Step-overrun {c} (closes s live) v h = netchan_chan_close-FlagIs c.pool.overrun c s refl
Step-overrun {c} (writes s bytes live) v h =
    write_chan-FlagIs c.pool.overrun (max_frag_payload c.cfg) (c.chan_pool s) c.pool bytes
      (ConnInv-got c v) refl
Step-overrun {c} (reads s buflen live) v h =
    read_chan-FlagIs c.pool.overrun (c.chan_pool s) c.pool buflen refl
Step-overrun polls v h = refl
