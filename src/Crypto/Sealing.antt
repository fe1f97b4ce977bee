-- ===== src/Crypto/Sealing.antt =====
-- What nc_crypto_seal of crypto/nc_crypto.c seals, nc_crypto_open opens.
use netchan.Base.{
  ltb, ℕ, suc, ◌+◌, ◌-◌, ◌≤◌, ◌<◌, ◌≡◌, refl, sym, ap, ◌∙◌, ◌≢◌, true, false, not, ◌||◌, Option,
  some, arith, length, take, drop, length-append, take-append, drop-append, List, ◌∷◌, ◌++◌,
  size_mod,
}
use netchan.Crypto.{data_tag, overhead, Crypto, wr64be, rd64be, nonce_of}
use netchan.Crypto.Datagrams.{nc_crypto_seal, unlocked, open_plain, open_data, nc_crypto_open}
use netchan.Crypto.History.{seen_by, replay_check_and_update-seen}
use netchan.Crypto.Primitives.{Monocypher, IsLawful}
use netchan.Wire.{wr32, rd32}

pub rd64be-wr64be : (b v : ℕ) (xs : List ℕ) → v < size_mod → rd64be (b ∷ (wr64be v ++ xs)) 1 ≡ v
unfolding rd64be wr64be rd32 wr32
rd64be-wr64be b v xs h = omega arith

module _ (M : Monocypher) where
  abbrev pub packet_tail : List ℕ → ℕ → List ℕ → List ℕ
  packet_tail key counter plain =
      let (mac, cipher) = M.aead_lock key (nonce_of counter) plain in
      wr64be counter ++ (mac ++ cipher)

  -- A sealed packet: the tag, the counter, the mac and the ciphertext.
  unfoldable pub packet : List ℕ → ℕ → List ℕ → List ℕ
  packet key counter plain = data_tag ∷ packet_tail key counter plain

  as_data :
      (r : Crypto) (rest : List ℕ) (room : ℕ)
      → r.failed ≡ false
      → nc_crypto_open M r (data_tag ∷ rest) room ≡ open_data M r (data_tag ∷ rest) room
  unfolding nc_crypto_open
  as_data r rest room sound =
      let long : ltb (suc (length rest)) 1 ≡ false = ground arith in rw (long, sound) refl

  pub packet_counter :
      (key : List ℕ) (counter : ℕ) (plain : List ℕ)
      → counter < size_mod
      → rd64be (packet key counter plain) 1 ≡ counter
  unfolding packet
  packet_counter key counter plain h =
      let (mac, cipher) = M.aead_lock key (nonce_of counter) plain in
      rd64be-wr64be data_tag counter (mac ++ cipher) h

  pub sealed_packet :
      (c : Crypto) (plain pkt : List ℕ) (room : ℕ)
      → (nc_crypto_seal M c plain room).0 ≡ some pkt
      → (packet c.tx_key (c.tx_counter + 1) plain ≡ pkt) × (c.tx_counter ≢ size_mod - 1)
  unfolding nc_crypto_seal packet
  sealed_packet c plain pkt room e = ground arith

  open_fresh :
      (r : Crypto) (counter : ℕ) (plain : List ℕ)
      → counter ≢ 0
      → seen_by r counter ≡ false
      → (open_plain M r counter (some plain)).0 ≡ some plain
  unfolding open_plain unlocked
  open_fresh r counter plain ne fresh =
      ground (arith, (replay_check_and_update-seen r counter counter ne fresh).0)

  -- A DATA packet by its parts.
  open_data_parts :
      (r : Crypto) (pkt mac cipher : List ℕ) (counter room : ℕ)
      → r.have_key ≡ true
      → 25 ≤ length pkt
      → length pkt ≤ room + 25
      → rd64be pkt 1 ≡ counter
      → take 16 (drop 9 pkt) ≡ mac
      → drop 25 pkt ≡ cipher
      → open_data M r pkt room
        ≡ open_plain M r counter (M.aead_unlock r.rx_key (nonce_of counter) mac cipher)
  unfolding open_data
  open_data_parts r pkt mac cipher counter room keyed long fits ctr m x =
      let e₁ : (not r.have_key || ltb (length pkt) overhead) ≡ false = ground arith in
      let e₂ : ltb room (length pkt - overhead) ≡ false = ground arith in
      rw (e₁, e₂, ctr, m, x) refl

module _ (M : Monocypher) (L : IsLawful M) where
  open_packet :
      (r : Crypto) (counter : ℕ) (plain : List ℕ) (room : ℕ)
      → r.have_key ≡ true
      → length plain ≤ room
      → counter < size_mod
      → counter ≢ 0
      → seen_by r counter ≡ false
      → (open_data M r (packet M r.rx_key counter plain) room).0 ≡ some plain
  unfolding packet wr64be wr32
  open_packet r counter plain room keyed fits small ne fresh =
      let nonce = nonce_of counter in
      let mac = (M.aead_lock r.rx_key nonce plain).0 in
      let cipher = (M.aead_lock r.rx_key nonce plain).1 in
      let m = L.length-mac r.rx_key nonce plain in
      let size : length (mac ++ cipher) ≡ 16 + length plain =
        omega (arith, length-append mac cipher, m, L.length-cipher r.rx_key nonce plain) in
      ap (λ (x : Option (List ℕ) × Crypto). x.0)
        (open_data_parts M r (packet M r.rx_key counter plain) mac cipher counter room keyed
          (omega (arith, size)) (omega (arith, size))
          (rd64be-wr64be data_tag counter (mac ++ cipher) small)
          (ap (λ (k : ℕ). take k (mac ++ cipher)) (sym m) ∙ take-append mac cipher)
          (ap (λ (k : ℕ). drop k (mac ++ cipher)) (sym m) ∙ drop-append mac cipher))
      ∙ rw (L.unlock-lock r.rx_key nonce plain) (open_fresh M r counter plain ne fresh)

  -- What one side seals the other opens, if it has the key, the buffer has room, and the counter is
  -- not one that it has seen; monocypher is as IsLawful says.
  pub nc_crypto_open-nc_crypto_seal :
      (s r : Crypto) (plain pkt : List ℕ) (room room' : ℕ)
      → s.tx_key ≡ r.rx_key
      → r.have_key ≡ true
      → r.failed ≡ false
      → length plain ≤ room'
      → s.tx_counter < size_mod
      → seen_by r (s.tx_counter + 1) ≡ false
      → (nc_crypto_seal M s plain room).0 ≡ some pkt
      → (nc_crypto_open M r pkt room').0 ≡ some plain
  unfolding packet
  nc_crypto_open-nc_crypto_seal s r plain pkt room room' same keyed sound fits small fresh e =
      let sealed = sealed_packet M s plain pkt room e in
      let counter = s.tx_counter + 1 in
      let p = packet M r.rx_key counter plain in
      let whole : p ≡ pkt = rw (← same) sealed.0 in
      rw (← whole) (
        ap (λ (x : Option (List ℕ) × Crypto). x.0)
          (as_data M r (packet_tail M r.rx_key counter plain) room' sound)
        ∙ open_packet r counter plain room' keyed fits (omega (arith, sealed.1)) (omega arith)
            fresh)
