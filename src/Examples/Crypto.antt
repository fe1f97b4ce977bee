-- ===== src/Examples/Crypto.antt =====
-- Concrete inputs for the theorems about crypto/nc_crypto.c.
use netchan.Base.{
  ◌==◌, is_some, ℕ, ◌≡◌, refl, ◌≢◌, true, false, ◌||◌, Option, none, some, arith, replicate,
  bytes_eq, List, [], ◌∷◌, ◌++◌,
}
use netchan.Crypto.{Crypto, CryptoCfg, wr64be, rd64be, no_crypto, nonce_of, replay_check_and_update}
use netchan.Crypto.Agreement.{Agreed}
use netchan.Crypto.Datagrams.{nc_crypto_seal, unlocked, open_plain, open_data, nc_crypto_open}
use netchan.Crypto.Handshake.{handshake-Agreed}
use netchan.Crypto.History.{seen_by, replay_check_and_update-seen, here, nc_crypto_open_once}
use netchan.Crypto.Keys.{
  is_zero32, with_static, with_cfg, seed_of, init_with, nc_crypto_init, accepts_peer, heard,
  nc_crypto_handshake_packet,
}
use netchan.Crypto.Nonces.{nc_crypto_seal_once}
use netchan.Crypto.Primitives.{Monocypher, IsLawful}
use netchan.Crypto.Replay.{too_old, seen}
use netchan.Crypto.Sealing.{packet, nc_crypto_open-nc_crypto_seal}
use netchan.Wire.{wr32, rd32}

bytes_eq_self : (xs : List ℕ) → bytes_eq xs xs ≡ true
unfolding bytes_eq
bytes_eq_self [] = refl
bytes_eq_self (x ∷ xs) = ground (arith, bytes_eq_self xs)

-- Primitives that do not hide anything, for which the laws hold.
abbrev plain_primitives : Monocypher
plain_primitives = record {
  x25519 = λ a b. replicate 32 9;
  x25519_public_key = λ a. replicate 32 5;
  blake2b = λ m. replicate 32 7;
  verify32 = λ a b. bytes_eq a b;
  aead_lock = λ k n p. (replicate 16 0, p);
  aead_unlock = λ k n mac c. some c;
}

plain_primitives-IsLawful : IsLawful plain_primitives
plain_primitives-IsLawful = record {
  x25519_comm = λ a b. refl;
  length-public_key = λ a. refl;
  verify32_self = bytes_eq_self;
  length-mac = λ k n p. refl;
  length-cipher = λ k n p. refl;
  unlock-lock = λ k n p. refl;
}

-- A session that has keys.
abbrev keyed_session : Crypto
keyed_session = record no_crypto {
  have_key = true;
  tx_key = replicate 32 7;
  rx_key = replicate 32 7;
}

abbrev greeting : List ℕ
greeting = 104 ∷ 105 ∷ []

abbrev first_packet : List ℕ
first_packet = 2 ∷ 0 ∷ 0 ∷ 0 ∷ 0 ∷ 0 ∷ 0 ∷ 0 ∷ 1 ∷ (replicate 16 0 ++ greeting)

abbrev second_packet : List ℕ
second_packet = 2 ∷ 0 ∷ 0 ∷ 0 ∷ 0 ∷ 0 ∷ 0 ∷ 0 ∷ 2 ∷ (replicate 16 0 ++ greeting)

first_sealed : (nc_crypto_seal plain_primitives keyed_session greeting 100).0 ≡ some first_packet
unfolding nc_crypto_seal nonce_of wr64be wr32
first_sealed = refl

abbrev after_first : Crypto
after_first = (nc_crypto_seal plain_primitives keyed_session greeting 100).1

after_first_value : after_first ≡ record keyed_session { tx_counter = 1 }
unfolding nc_crypto_seal
after_first_value = refl

nc_crypto_seal_once_example :
    (packet plain_primitives keyed_session.tx_key 1 greeting ≡ first_packet)
    × (packet plain_primitives after_first.tx_key 2 greeting ≡ second_packet)
    × (rd64be first_packet 1 ≢ rd64be second_packet 1)
    × (nonce_of 1 ≢ nonce_of 2)
unfolding nc_crypto_seal nonce_of wr64be wr32
nc_crypto_seal_once_example =
    nc_crypto_seal_once plain_primitives keyed_session greeting greeting first_packet second_packet
      100 100 (omega arith) refl here refl

first_unseen : seen_by keyed_session 1 ≡ false
unfolding seen
first_unseen = refl

nc_crypto_open-nc_crypto_seal_example :
    (nc_crypto_open plain_primitives keyed_session first_packet 100).0 ≡ some greeting
nc_crypto_open-nc_crypto_seal_example =
    nc_crypto_open-nc_crypto_seal plain_primitives plain_primitives-IsLawful keyed_session
      keyed_session greeting first_packet 100 100 refl refl refl (omega arith) (omega arith)
      first_unseen first_sealed

abbrev window_of_two : Crypto
window_of_two = record keyed_session { rx_max = 70; rx_window = 5 }

replay_check_and_update-seen_example :
    let (fresh, c') = replay_check_and_update window_of_two 69 in
    (fresh ≡ true)
    × (seen_by c' 70 ≡ (70 == 69 || (seen_by window_of_two 70 || too_old c'.rx_max 70)))
unfolding seen
replay_check_and_update-seen_example =
    replay_check_and_update-seen window_of_two 69 70 (omega arith) refl

first_opened : is_some (nc_crypto_open plain_primitives keyed_session first_packet 100).0 ≡ true
unfolding nc_crypto_open open_data open_plain unlocked replay_check_and_update rd64be rd32
first_opened = refl

nc_crypto_open_once_example :
    (nc_crypto_open plain_primitives
      (nc_crypto_open plain_primitives keyed_session first_packet 100).1
      first_packet
      100).0
    ≡ none
nc_crypto_open_once_example =
    nc_crypto_open_once plain_primitives keyed_session first_packet first_packet 100 100 refl refl
      refl first_opened here

abbrev seeded : Option (List ℕ) → Option CryptoCfg
seeded identity = some (record {
  eph_sk_seed = some (replicate 32 3);
  psk = none;
  static_sk = identity;
  require_peer_static = false;
  verify_peer = none;
})

-- What nc_crypto_init makes of a role, an identity key and no more.
abbrev side : ℕ → Crypto
side role = record no_crypto { role = role; eph_sk = replicate 32 3; eph_pk = replicate 32 5 }

abbrev named_side : ℕ → Crypto
named_side role = record (side role) {
  have_static = true;
  static_sk = replicate 32 4;
  static_pk = replicate 32 5;
}

named_starts :
    nc_crypto_init plain_primitives 0 (seeded (some (replicate 32 4))) none ≡ some (named_side 0)
unfolding nc_crypto_init init_with seed_of with_cfg with_static
named_starts = refl

anonymous_starts : nc_crypto_init plain_primitives 1 (seeded none) none ≡ some (side 1)
unfolding nc_crypto_init init_with seed_of with_cfg with_static
anonymous_starts = refl

abbrev named_hello : List ℕ
named_hello = 1 ∷ (replicate 32 5 ++ replicate 32 5)

abbrev anonymous_hello : List ℕ
anonymous_hello = 1 ∷ (replicate 32 5 ++ replicate 32 0)

handshake-Agreed_example :
    Agreed plain_primitives
      (nc_crypto_open plain_primitives (named_side 0) anonymous_hello 65).1
      (nc_crypto_open plain_primitives (side 1) named_hello 65).1
unfolding is_zero32 accepts_peer heard nc_crypto_handshake_packet bytes_eq
handshake-Agreed_example =
    handshake-Agreed plain_primitives plain_primitives-IsLawful (seeded (some (replicate 32 4)))
      (seeded none) none none (named_side 0) (side 1) named_hello anonymous_hello 65 named_starts
      anonymous_starts refl tt refl refl refl refl refl refl
