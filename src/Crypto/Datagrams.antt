-- ===== src/Crypto/Datagrams.antt =====
-- nc_crypto_seal and nc_crypto_open of crypto/nc_crypto.c.
use netchan.Base.{
  ltb, ◌==◌, if◌then◌else◌, ℕ, ◌+◌, ◌-◌, Bool, not, ◌||◌, Option, none, some, length, take, drop,
  List, [], ◌∷◌, ◌++◌, size_mod, add_size,
}
use netchan.Crypto.{
  hello_tag, data_tag, hello_len, overhead, Crypto, wr64be, rd64be, nonce_of,
  replay_check_and_update,
}
use netchan.Crypto.Keys.{consume_hello}
use netchan.Crypto.Primitives.{Monocypher}
use netchan.Wire.{byte_at}

module _ (M : Monocypher) where
  -- `none` for NC_CRYPTO_ERR.
  unfoldable pub nc_crypto_seal : Crypto → List ℕ → ℕ → Option (List ℕ) × Crypto
  nc_crypto_seal c plain room =
      if not c.have_key
      then (none, c)
      else if ltb room (add_size (length plain) overhead)
      then (none, c)
      else if c.tx_counter == size_mod - 1
      then (none, c)
      else (let counter = c.tx_counter + 1 in
          let (mac, cipher) = M.aead_lock c.tx_key (nonce_of counter) plain in
          (
            some (data_tag ∷ (wr64be counter ++ (mac ++ cipher))),
            record c { tx_counter = counter },
          ))

  -- The plaintext, unless the counter is refused.
  unfoldable pub unlocked : List ℕ → Bool × Crypto → Option (List ℕ) × Crypto
  unlocked plain (fresh, c) = (if fresh then some plain else none, c)

  unfoldable pub open_plain : Crypto → ℕ → Option (List ℕ) → Option (List ℕ) × Crypto
  open_plain c counter none = (none, c)
  open_plain c counter (some plain) = unlocked plain (replay_check_and_update c counter)

  unfoldable pub open_data : Crypto → List ℕ → ℕ → Option (List ℕ) × Crypto
  open_data c pkt room =
      if not c.have_key || ltb (length pkt) overhead
      then (none, c)
      else if ltb room (length pkt - overhead)
      then (none, c)
      else (let counter = rd64be pkt 1 in
          open_plain c counter
            (M.aead_unlock c.rx_key (nonce_of counter) (take 16 (drop 9 pkt)) (drop overhead pkt)))

  -- `none` for NC_CRYPTO_ERR, and else the bytes written to `out`; a HELLO delivers none.
  unfoldable pub nc_crypto_open : Crypto → List ℕ → ℕ → Option (List ℕ) × Crypto
  nc_crypto_open c pkt room =
      if ltb (length pkt) 1 || c.failed
      then (none, c)
      else if byte_at pkt 0 == hello_tag
      then if not (length pkt == hello_len)
        then (none, c)
        else (some [], if c.have_key then c else consume_hello M c (drop 1 pkt))
      else if byte_at pkt 0 == data_tag
      then open_data c pkt room
      else (none, c)
