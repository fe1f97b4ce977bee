-- ===== src/Microchan/Sending.antt =====
-- What mc_write, mc_send_next and mc_service of microchan/src/microchan.c do to the send window, and that
-- the packets carry messages of the log.
use netchan.Base.{
  ltb, leb, ◌==◌, if◌then◌else◌, Bool-cases, if_cases, ℕ, ◌+◌, ◌%◌, ◌≤◌, ◌<◌, ◌≡◌, ◌≢◌, ◌⊎◌, inl,
  inr, true, not, arith, update, length, length-append, List, [], ◌∷◌, ◌++◌, append-nil, u16_mod,
  inc16, sub16,
}
use netchan.Microchan.{write_reliable, make_room, write_unreliable, mc_write}
use netchan.Microchan.Log.{Message, At-append, At-last}
use netchan.Microchan.Types.{
  mc_window, mc_unrel_txq, mc_maxmsg, mc_reliable, is_up, McError, TxSlot, Microchan,
}
use netchan.Microchan.Window.{Window, Apart, Sends}

-- What a call of mc_write on channel i of this type, with this reply, adds to the log.
abbrev pub logged_by : ℕ → ℕ → List ℕ → McError ⊎ ℕ → List Message
logged_by type i bytes (inl e) = []
logged_by type i bytes (inr n) = if type == mc_reliable then (i, bytes) ∷ [] else []

-- A message is put behind those of the window.
written-Window :
    (log : List Message) (txw : ℕ → TxSlot) (base next unsent i : ℕ) (bytes : List ℕ)
    → length log + 1 < u16_mod
    → sub16 next base < 8
    → length bytes ≤ mc_maxmsg
    → Window log txw base next unsent
    → Window
        (log ++ ((i, bytes) ∷ []))
        (update txw (next % 8) (record { seq = next; chan = i; bytes = bytes }))
        base
        (inc16 next)
        unsent
written-Window log txw base next unsent i bytes small room fits v =
    let up : inc16 next ≡ next + 1 = omega (arith, v.all) in
    let near : next < base + 8 = omega (arith, v.all, v.base_le, v.unsent_le) in
    rw up (record {
      all = omega (arith, v.all, length-append log ((i, bytes) ∷ []));
      base_le = v.base_le;
      unsent_le = omega (arith, v.unsent_le);
      room = omega arith;
      slots = λ s lo hi. elim (Bool-cases (next % 8 == s % 8)) [
        | inl own ↦
            let e : s ≡ next = ground (arith, near) in
            rw own (record {
              number = omega arith;
              message = rw (e, v.all) (At-last log (i, bytes));
              fits = fits;
            })
        | inr other ↦
            let ne : s ≢ next = λ e. ground arith in
            let h = v.slots s lo (omega arith) in
            rw other
              (record { number = h.number; message = At-append log _ s _ h.message; fits = h.fits })
      ];
    })

Window-append :
    (log ext : List Message) (txw : ℕ → TxSlot) (base next unsent : ℕ)
    → ext ≡ []
    → Window log txw base next unsent
    → Window (log ++ ext) txw base next unsent
Window-append log ext txw base next unsent e v = rw (e, append-nil log) v

-- An unreliable datagram for another channel joins its ring, the oldest going if four wait.
unreliable-Apart :
    (k : ℕ) (c : Microchan) (i : ℕ) (bytes : List ℕ)
    → i ≢ k
    → length bytes ≤ mc_maxmsg
    → Apart k c.txu c.txu_chan c.txu_head c.txu_count
    → let d = write_unreliable c i bytes in Apart k d.txu d.txu_chan d.txu_head d.txu_count
unfolding write_unreliable make_room
unreliable-Apart k c i bytes ne fits v = elim (Bool-cases (leb mc_unrel_txq c.txu_count)) [
  | inl full ↦ rw full (record {
    head_lt = omega arith;
    size_le = omega (arith, v.size_le);
    other = λ j h l. ground (arith, v.other j h, v.size_le, v.head_lt);
    fits = λ j h l. ground (arith, v.fits j h, v.size_le, v.head_lt);
  })
  | inr room ↦ rw room (record {
    head_lt = v.head_lt;
    size_le = ground (arith, v.size_le);
    other = λ j h l. ground (arith, v.other j h, v.size_le, v.head_lt);
    fits = λ j h l. ground (arith, v.fits j h, v.size_le, v.head_lt);
  })
]

module _ (k : ℕ) (log : List Message) where
  -- The connection after a call, with the log after it.
  Written : ℕ → ℕ → List ℕ → (McError ⊎ ℕ) × Microchan → Type 0
  Written type i bytes (reply, d) = Sends k (log ++ logged_by type i bytes reply) d

  write_reliable-Written :
      (c : Microchan) (type i : ℕ) (bytes : List ℕ)
      → length log + 1 < u16_mod
      → length bytes ≤ mc_maxmsg
      → (type == mc_reliable) ≡ true
      → Sends k log c
      → Written type i bytes (write_reliable c i bytes)
  unfolding write_reliable Written
  write_reliable-Written c type i bytes small fits rel (names, window, apart) =
      elim (Bool-cases (leb mc_window (sub16 c.tx_next c.tx_base))) [
        | inl full ↦ rw (full, append-nil log) (names, window, apart)
        | inr room ↦
            rw (room, rel)
              (
                names,
                written-Window log c.txw c.tx_base c.tx_next c.tx_unsent i bytes small
                    (ground arith) fits window,
                apart,
              )
      ]

  write_unreliable-Sends :
      (c : Microchan) (i : ℕ) (bytes : List ℕ)
      → i ≢ k
      → length bytes ≤ mc_maxmsg
      → Sends k log c
      → Sends k log (write_unreliable c i bytes)
  unfolding write_unreliable make_room
  write_unreliable-Sends c i bytes other fits (names, window, apart) =
      let queued = unreliable-Apart k c i bytes other fits apart in
      elim (Bool-cases (leb mc_unrel_txq c.txu_count)) [
        | inl full ↦ rw full (names, window, rw full at queued)
        | inr room ↦ rw room (names, window, rw room at queued)
      ]

  -- A message that mc_write accepts is the next of the log; what it refuses changes nothing.
  pub mc_write-Sends :
      (c : Microchan) (i : ℕ) (bytes : List ℕ)
      → length log + 1 < u16_mod
      → Sends k log c
      → Sends k
          (log ++ logged_by (c.chan i).type i bytes (mc_write c i bytes).0)
          (mc_write c i bytes).1
  unfolding mc_write Written
  mc_write-Sends c i bytes small v =
      let refused : Sends k (log ++ []) c = rw (append-nil log) v in
      let P = Written (c.chan i).type i bytes in
      if_cases P (not (c.chan i).used) _ _ (λ unused. refused)
        (λ used.
          let name : (c.chan i).id ≡ i = v.0.ids i (ground arith) in
          if_cases P (not (is_up c.state)) _ _ (λ down. refused)
            (λ up.
              if_cases P (ltb mc_maxmsg (length bytes)) _ _ (λ big. refused)
                (λ fits.
                  if_cases P ((c.chan i).type == mc_reliable) _ _
                    (λ rel.
                      rw name (
                        write_reliable-Written c (c.chan i).type i bytes small (ground arith) rel
                          v))
                    (λ unrel.
                      let other : i ≢ k = λ e. ground (arith, v.0.reliable) in
                      rw (name, unrel, append-nil log)
                        (write_unreliable-Sends c i bytes other (ground arith) v)))))
