-- ===== src/Microchan/Log.antt =====
-- What was written on the reliable channels of microchan/src/microchan.c, in order, and the packets that
-- carry it.
use netchan.Base.{
  ◌==◌, if◌then◌else◌, Bool-cases, ℕ, suc, ◌≤◌, ◌<◌, ◌≡◌, refl, sym, ap, ◌∙◌, ◌≢◌, ◌⊎◌, inl, inr,
  arith, length, take, drop, length-append, take-append, take-append_le, take_all, List, [], ◌∷◌,
  ◌++◌, append_assoc, append-nil, u16_mod,
}
use netchan.Microchan.Send.{record_bytes}
use netchan.Microchan.Types.{mc_hdr, mc_maxmsg, mt_unrel, mt_rel, pkt_data}
use netchan.Wire.{byte_at}

-- A message and its channel.
abbrev pub Message : Type 0
Message = ℕ × List ℕ

-- Message m stands at place s of the log.
pub record At (log : List Message) (s : ℕ) (m : Message) : Type 0 where
  pub within : s < length log
  pub next : take (suc s) log ≡ take s log ++ (m ∷ [])

pub At-append : (log ext : List Message) (s : ℕ) (m : Message) → At log s m → At (log ++ ext) s m
At-append log ext s m a = record {
  within = omega (arith, a.within, length-append log ext);
  next =
      take-append_le (suc s) log ext (omega (arith, a.within))
      ∙ a.next
      ∙ ap (λ (l : List Message). l ++ (m ∷ []))
          (sym (take-append_le s log ext (omega (arith, a.within))));
}

pub At-last : (log : List Message) (m : Message) → At (log ++ (m ∷ [])) (length log) m
At-last log m = record {
  within = omega (arith, length-append log (m ∷ []));
  next =
      take_all (suc (length log)) (log ++ (m ∷ [])) (omega (arith, length-append log (m ∷ [])))
      ∙ ap (λ (l : List Message). l ++ (m ∷ [])) (sym (take-append log (m ∷ [])));
}

-- The messages of channel k.
unfoldable pub of_chan : ℕ → List Message → List (List ℕ)
of_chan k [] = []
of_chan k (m ∷ l) = if m.0 == k then m.1 ∷ of_chan k l else of_chan k l

pub of_chan-append :
    (k : ℕ) (l l' : List Message) → of_chan k (l ++ l') ≡ of_chan k l ++ of_chan k l'
unfolding of_chan
of_chan-append k [] l' = refl
of_chan-append k (m ∷ l) l' = elim (Bool-cases (m.0 == k)) [
  | inl same ↦ rw same (ap (◌∷◌ m.1) (of_chan-append k l l'))
  | inr other ↦ rw other (of_chan-append k l l')
]

-- A record of a DATA packet that the sender of this log may send, as channel k sees it.
pub data Good (k : ℕ) (log : List Message) : ℕ → ℕ → ℕ → List ℕ → Type 0 where
  logged :
      {chan seq : ℕ} {bytes : List ℕ} → At log seq (chan, bytes) → Good k log chan mt_rel seq bytes
  elsewhere : {chan : ℕ} {bytes : List ℕ} → chan ≢ k → Good k log chan mt_unrel 0 bytes

-- The records of a DATA packet.
pub data Body (k : ℕ) (log : List Message) : List ℕ → Type 0 where
  no_more : Body k log []
  record_then :
      {chan mt seq : ℕ} {bytes rest : List ℕ}
      → Good k log chan mt seq bytes
      → seq < u16_mod
      → length bytes ≤ mc_maxmsg
      → Body k log rest
      → Body k log (record_bytes chan mt seq bytes ++ rest)

pub Good-append :
    {k chan mt seq : ℕ} {bytes : List ℕ} (log ext : List Message)
    → Good k log chan mt seq bytes
    → Good k (log ++ ext) chan mt seq bytes
Good-append log ext (logged a) = logged (At-append log ext _ _ a)
Good-append log ext (elsewhere h) = elsewhere h

pub Body-append :
    {k : ℕ} (log ext : List Message) {q : List ℕ} → Body k log q → Body k (log ++ ext) q
Body-append log ext no_more = no_more
Body-append log ext (record_then g s l b) =
    record_then (Good-append log ext g) s l (Body-append log ext b)

-- One more record at the end.
pub Body-snoc :
    {k : ℕ} {log : List Message} (chan mt seq : ℕ) (bytes : List ℕ) {q : List ℕ}
    → Good k log chan mt seq bytes
    → seq < u16_mod
    → length bytes ≤ mc_maxmsg
    → Body k log q
    → Body k log (q ++ record_bytes chan mt seq bytes)
Body-snoc chan mt seq bytes g s l no_more =
    rw (← append-nil (record_bytes chan mt seq bytes)) (record_then g s l no_more)
Body-snoc chan mt seq bytes g s l
      (record_then {chan = chan'} {mt = mt'} {seq = seq'} {bytes = bytes'} {rest = rest} g' s' l'
        b) =
    rw (append_assoc (record_bytes chan' mt' seq' bytes') rest (record_bytes chan mt seq bytes))
      (record_then g' s' l' (Body-snoc chan mt seq bytes g s l b))

-- A packet that is no DATA packet, or a good one.
abbrev pub PacketOk : ℕ → List Message → List ℕ → Type 0
PacketOk k log p = (byte_at p 4 ≢ pkt_data) ⊎ Body k log (drop mc_hdr p)
