-- ===== src/Crypto/Nonces.antt =====
-- No nonce is used twice in crypto/nc_crypto.c.
use netchan.Base.{
  ℕ, ◌+◌, ◌≤◌, ◌<◌, ◌≡◌, refl, sym, ap, ◌∙◌, ◌≢◌, Option, none, some, arith, drop, replicate, List,
  ◌∷◌, size_mod,
}
use netchan.Crypto.{Crypto, rd64be, nonce_of, replay_check_and_update}
use netchan.Crypto.Datagrams.{nc_crypto_seal, unlocked, open_plain, nc_crypto_open}
use netchan.Crypto.History.{
  opens, Reach, consume_hello-Untouched, nc_crypto_open_any, seals, here, next,
}
use netchan.Crypto.Primitives.{Monocypher}
use netchan.Crypto.Sealing.{rd64be-wr64be, packet, packet_counter, sealed_packet}

-- A counter can be read off its nonce.
nonce_of_injective : (n m : ℕ) → n < size_mod → m < size_mod → nonce_of n ≡ nonce_of m → n ≡ m
unfolding nonce_of
nonce_of_injective n m h k e =
    sym (rd64be-wr64be 0 n (replicate 16 0) h)
    ∙ ap (λ (l : List ℕ). rd64be (0 ∷ l) 1) e
    ∙ rd64be-wr64be 0 m (replicate 16 0) k

module _ (M : Monocypher) where
  replay_check_and_update-tx_counter :
      (c : Crypto) (n : ℕ) → (replay_check_and_update c n).1.tx_counter ≡ c.tx_counter
  unfolding replay_check_and_update
  replay_check_and_update-tx_counter c n = ground arith

  open_plain-tx_counter :
      (c : Crypto) (n : ℕ) (o : Option (List ℕ)) → (open_plain M c n o).1.tx_counter ≡ c.tx_counter
  unfolding open_plain unlocked
  open_plain-tx_counter c n none = refl
  open_plain-tx_counter c n (some plain) = replay_check_and_update-tx_counter c n

  nc_crypto_open-tx_counter :
      (c : Crypto) (pkt : List ℕ) (room : ℕ)
      → (nc_crypto_open M c pkt room).1.tx_counter ≡ c.tx_counter
  nc_crypto_open-tx_counter c pkt room =
      nc_crypto_open_any M (λ (x : Crypto). x.tx_counter ≡ c.tx_counter) c pkt room refl
        (consume_hello-Untouched M c (drop 1 pkt)).2 (λ o. open_plain-tx_counter c (rd64be pkt 1) o)

  nc_crypto_seal-tx_counter :
      (c : Crypto) (plain : List ℕ) (room : ℕ)
      → c.tx_counter < size_mod
      → (c.tx_counter ≤ (nc_crypto_seal M c plain room).1.tx_counter)
        × ((nc_crypto_seal M c plain room).1.tx_counter < size_mod)
  unfolding nc_crypto_seal
  nc_crypto_seal-tx_counter c plain room h = ground arith

  Reach-tx_counter :
      {c d : Crypto}
      → Reach M c d
      → c.tx_counter < size_mod
      → (c.tx_counter ≤ d.tx_counter) × (d.tx_counter < size_mod)
  Reach-tx_counter here h = (omega arith, h)
  Reach-tx_counter (next {d} r (opens pkt room)) h =
      omega (arith, Reach-tx_counter r h, nc_crypto_open-tx_counter d pkt room)
  Reach-tx_counter (next {d} r (seals plain room)) h =
      let before = Reach-tx_counter r h in
      omega (arith, before, nc_crypto_seal-tx_counter d plain room before.1)

  sealed_counter :
      (c : Crypto) (plain pkt : List ℕ) (room : ℕ)
      → c.tx_counter < size_mod
      → (nc_crypto_seal M c plain room).0 ≡ some pkt
      → (rd64be pkt 1 ≡ c.tx_counter + 1)
        × ((nc_crypto_seal M c plain room).1.tx_counter ≡ c.tx_counter + 1)
        × (c.tx_counter + 1 < size_mod)
  unfolding nc_crypto_seal
  sealed_counter c plain pkt room h e =
      let sealed = sealed_packet M c plain pkt room e in
      let counter : rd64be pkt 1 ≡ c.tx_counter + 1 =
        rw (← sealed.0)
          (packet_counter M c.tx_key (c.tx_counter + 1) plain (omega (arith, sealed.1))) in
      (counter, ground arith, omega (arith, sealed.1))

  -- Two packets that a session seals, whatever it opens and seals in between, are made with different
  -- nonces: aead_lock is given the nonce of tx_counter + 1, the packet carries that counter, and the
  -- two counters and their nonces differ, so no nonce is used twice under a key; tx_counter is a
  -- uint64_t.
  pub nc_crypto_seal_once :
      {d : Crypto} (c : Crypto) (plain plain' pkt pkt' : List ℕ) (room room' : ℕ)
      → c.tx_counter < size_mod
      → (nc_crypto_seal M c plain room).0 ≡ some pkt
      → Reach M (nc_crypto_seal M c plain room).1 d
      → (nc_crypto_seal M d plain' room').0 ≡ some pkt'
      → (packet M c.tx_key (c.tx_counter + 1) plain ≡ pkt)
        × (packet M d.tx_key (d.tx_counter + 1) plain' ≡ pkt')
        × (rd64be pkt 1 ≢ rd64be pkt' 1)
        × (nonce_of (c.tx_counter + 1) ≢ nonce_of (d.tx_counter + 1))
  nc_crypto_seal_once {d} c plain plain' pkt pkt' room room' h e r e' =
      let first = sealed_counter c plain pkt room h e in
      let between = Reach-tx_counter r (omega (arith, first)) in
      let second = sealed_counter d plain' pkt' room' between.1 e' in
      (
        (sealed_packet M c plain pkt room e).0,
        (sealed_packet M d plain' pkt' room' e').0,
        λ same. omega (arith, first, between, second),
        λ same. omega (
          arith,
          nonce_of_injective (c.tx_counter + 1) (d.tx_counter + 1) first.2 second.2 same,
          first,
          between,
        ),
      )
