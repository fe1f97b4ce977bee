-- ===== src/Crypto.antt =====
-- The encrypted transport of crypto/nc_crypto.c: the handshake, sealing, opening and the replay window.
-- A 32-byte array is the list of its bytes. What the operating system's generator yields is an
-- argument, `none` where it fails, and monocypher is the parameter M.
pub mod Primitives
pub mod Keys
pub mod Datagrams
pub mod Bits
pub mod Replay
pub mod History
pub mod Sealing
pub mod Agreement
pub mod Handshake
pub mod Nonces
use netchan.Base.{
  ltb, leb, ◌==◌, if◌then◌else◌, ℕ, ◌+◌, ◌-◌, ◌*◌, ◌/◌, ◌%◌, ◌^◌, Bool, true, false, Option, none,
  replicate, List, [], ◌∷◌, ◌++◌, size_mod,
}
use netchan.Wire.{wr32, rd32}

abbrev pub hello_tag : ℕ
hello_tag = 1

abbrev pub data_tag : ℕ
data_tag = 2

abbrev pub hello_len : ℕ
hello_len = 65

abbrev pub overhead : ℕ
overhead = 25

abbrev pub label_sid : ℕ
label_sid = 0

abbrev pub label_i2r : ℕ
label_i2r = 1

abbrev pub label_r2i : ℕ
label_r2i = 2

abbrev pub zero32 : List ℕ
zero32 = replicate 32 0

-- The application's verdict on a peer's static key, `true` for NC_CRYPTO_OK; `none` stands for NULL.
abbrev pub VerifyCb : Type 0
VerifyCb = Option (List ℕ) → Bool

-- `struct nc_crypto`; flags are Booleans, and verify_ctx is part of the callback.
pub record Crypto : Type 0 where
  pub role : ℕ
  pub have_key : Bool
  pub failed : Bool
  pub eph_sk : List ℕ
  pub eph_pk : List ℕ
  pub have_static : Bool
  pub static_sk : List ℕ
  pub static_pk : List ℕ
  pub peer_has_static : Bool
  pub peer_static_pk : List ℕ
  pub tx_key : List ℕ
  pub rx_key : List ℕ
  pub psk : List ℕ
  pub sid : List ℕ
  pub tx_counter : ℕ
  pub rx_max : ℕ
  pub rx_window : ℕ
  pub require_peer_static : Bool
  pub verify_peer : Option VerifyCb

-- `struct nc_crypto_cfg`; `none` is a NULL pointer.
pub record CryptoCfg : Type 0 where
  pub eph_sk_seed : Option (List ℕ)
  pub psk : Option (List ℕ)
  pub static_sk : Option (List ℕ)
  pub require_peer_static : Bool
  pub verify_peer : Option VerifyCb

unfoldable pub wr64be : ℕ → List ℕ
wr64be v = wr32 (v / 4294967296) ++ wr32 v

unfoldable pub rd64be : List ℕ → ℕ → ℕ
rd64be p i = rd32 p i * 4294967296 + rd32 p (i + 4)

-- `memcmp(a, b, 32) > 0`
unfoldable pub bytes_gt : List ℕ → List ℕ → Bool
bytes_gt [] ys = false
bytes_gt (x ∷ xs) [] = false
bytes_gt (x ∷ xs) (y ∷ ys) = if x == y then bytes_gt xs ys else ltb y x

-- A struct after memset.
abbrev pub no_crypto : Crypto
no_crypto = record {
  role = 0;
  have_key = false;
  failed = false;
  eph_sk = zero32;
  eph_pk = zero32;
  have_static = false;
  static_sk = zero32;
  static_pk = zero32;
  peer_has_static = false;
  peer_static_pk = zero32;
  tx_key = zero32;
  rx_key = zero32;
  psk = zero32;
  sid = zero32;
  tx_counter = 0;
  rx_max = 0;
  rx_window = 0;
  require_peer_static = false;
  verify_peer = none;
}

-- The 24 bytes of a nonce.
unfoldable pub nonce_of : ℕ → List ℕ
nonce_of counter = wr64be counter ++ replicate 16 0

abbrev pub bit_set : ℕ → ℕ → Bool
bit_set mask i = mask / 2 ^ i % 2 == 1

-- Whether the counter is accepted, and the window after it. After the shift bit 0 is clear, so that
-- setting it adds 1, and a bit that is set by `|=` was clear.
unfoldable pub replay_check_and_update : Crypto → ℕ → Bool × Crypto
replay_check_and_update c counter =
    if counter == 0
    then (false, c)
    else if ltb c.rx_max counter
    then (let shift = counter - c.rx_max in
        (
          true,
          record c {
            rx_window = (if leb 64 shift then 0 else c.rx_window * 2 ^ shift % size_mod) + 1;
            rx_max = counter;
          },
        ))
    else (let diff = c.rx_max - counter in
        if leb 64 diff
        then (false, c)
        else if bit_set c.rx_window diff
        then (false, c)
        else (true, record c { rx_window = c.rx_window + 2 ^ diff }))
