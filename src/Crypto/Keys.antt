-- ===== src/Crypto/Keys.antt =====
-- The handshake of crypto/nc_crypto.c: nc_crypto_init, the HELLO, and the keys that come of it.
use netchan.Base.{
  ltb, ◌==◌, if◌then◌else◌, ℕ, Bool, true, false, not, ◌&&◌, Option, none, some, take, drop, List,
  [], ◌∷◌, ◌++◌,
}
use netchan.Crypto.{
  hello_tag, hello_len, label_sid, label_i2r, label_r2i, zero32, Crypto, CryptoCfg, bytes_gt,
  no_crypto,
}
use netchan.Crypto.Primitives.{Monocypher}

module _ (M : Monocypher) where
  unfoldable pub is_zero32 : List ℕ → Bool
  is_zero32 p = M.verify32 p zero32

  unfoldable pub derive_out :
      List ℕ → List ℕ → List ℕ → List ℕ → List ℕ → List ℕ → List ℕ → List ℕ → ℕ → List ℕ
  derive_out dh_ee dh_is dh_si eph_lo eph_hi s_init s_resp psk label = M.blake2b (
      dh_ee
      ++ (dh_is
          ++ (dh_si ++ (eph_lo ++ (eph_hi ++ (s_init ++ (s_resp ++ (psk ++ (label ∷ [])))))))))

  -- The Diffie-Hellman result of one static key, or zeros if it is absent.
  unfoldable pub static_dh : Bool → List ℕ → List ℕ → List ℕ
  static_dh present sk pk = if present then M.x25519 sk pk else zero32

  -- The keys from the three results; `init` says whether this side is the initiator.
  unfoldable pub take_keys : Crypto → Bool → List ℕ → List ℕ → List ℕ → List ℕ → Crypto
  take_keys c init peer_eph dh_ee dh_is dh_si =
      let swap = bytes_gt c.eph_pk peer_eph in
      let eph_lo = if swap then peer_eph else c.eph_pk in
      let eph_hi = if swap then c.eph_pk else peer_eph in
      let s_init = if init then c.static_pk else c.peer_static_pk in
      let s_resp = if init then c.peer_static_pk else c.static_pk in
      let out = derive_out dh_ee dh_is dh_si eph_lo eph_hi s_init s_resp c.psk in
      record c {
        sid = out label_sid;
        tx_key = if init then out label_i2r else out label_r2i;
        rx_key = if init then out label_r2i else out label_i2r;
        have_key = true;
      }

  -- `none` for NC_CRYPTO_ERR, where nothing changes.
  unfoldable pub derive_session : Crypto → List ℕ → Option Crypto
  derive_session c peer_eph =
      let dh_ee = M.x25519 c.eph_sk peer_eph in
      if is_zero32 dh_ee
      then none
      else if c.role == 0
      then some (
          take_keys c true peer_eph dh_ee (static_dh c.peer_has_static c.eph_sk c.peer_static_pk)
            (static_dh c.have_static c.static_sk peer_eph))
      else some (
          take_keys c false peer_eph dh_ee (static_dh c.have_static c.static_sk peer_eph)
            (static_dh c.peer_has_static c.eph_sk c.peer_static_pk))

  unfoldable pub with_static : Crypto → Option (List ℕ) → Crypto
  with_static c none = c
  with_static c (some sk) = record c {
    static_sk = sk;
    static_pk = M.x25519_public_key sk;
    have_static = true;
  }

  unfoldable pub with_cfg : Crypto → Option CryptoCfg → Crypto
  with_cfg c none = c
  with_cfg c (some cfg) =
      let psk : List ℕ = elim cfg.psk [ none ↦ zero32 | some k ↦ k ] in
      record (with_static (record c { psk = psk }) cfg.static_sk) {
        require_peer_static = cfg.require_peer_static;
        verify_peer = cfg.verify_peer;
      }

  unfoldable pub seed_of : Option CryptoCfg → Option (List ℕ) → Option (List ℕ)
  seed_of none random = random
  seed_of (some cfg) random = elim cfg.eph_sk_seed [ none ↦ random | some seed ↦ some seed ]

  unfoldable pub init_with : ℕ → Option CryptoCfg → Option (List ℕ) → Option Crypto
  init_with role cfg none = none
  init_with role cfg (some sk) = some (
      with_cfg
        (record no_crypto {
          role = if role == 0 then 0 else 1;
          eph_sk = sk;
          eph_pk = M.x25519_public_key sk;
        })
        cfg)

  -- `none` for NC_CRYPTO_ERR; `random` is what fill_random yields.
  unfoldable pub nc_crypto_init : ℕ → Option CryptoCfg → Option (List ℕ) → Option Crypto
  nc_crypto_init role cfg random = init_with role cfg (seed_of cfg random)

  -- The verdict on the peer after its key has been taken over.
  unfoldable pub accepts_peer : Crypto → Bool
  accepts_peer c =
      if c.require_peer_static && not c.peer_has_static then false else elim c.verify_peer [
        | none ↦ true
        | some verify ↦ verify (if c.peer_has_static then some c.peer_static_pk else none)
      ]

  unfoldable pub derived : Crypto → Option Crypto → Crypto
  derived c none = record c { failed = true }
  derived c (some c') = c'

  -- The peer's static key is taken over; zeros mean that it has none.
  unfoldable pub heard : Crypto → List ℕ → Crypto
  heard c peer_static =
      let known = not (is_zero32 peer_static) in
      record c {
        peer_has_static = known;
        peer_static_pk = if known then peer_static else c.peer_static_pk;
      }

  unfoldable pub judged : Crypto → List ℕ → Crypto
  judged c peer_eph =
      if accepts_peer c then derived c (derive_session c peer_eph) else record c { failed = true }

  unfoldable pub consume_hello : Crypto → List ℕ → Crypto
  consume_hello c body = judged (heard c (take 32 (drop 32 body))) (take 32 body)

-- `none` where the code returns 0.
unfoldable pub nc_crypto_handshake_packet : Crypto → ℕ → Option (List ℕ)
nc_crypto_handshake_packet c cap =
    if ltb cap hello_len
    then none
    else some (hello_tag ∷ (c.eph_pk ++ (if c.have_static then c.static_pk else zero32)))

-- `none` for NULL.
unfoldable pub nc_crypto_session_id : Crypto → Option (List ℕ)
nc_crypto_session_id c = if c.have_key then some c.sid else none
