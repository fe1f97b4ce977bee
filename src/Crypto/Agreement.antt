-- ===== src/Crypto/Agreement.antt =====
-- The handshake of crypto/nc_crypto.c: two sides that exchange HELLO packets have the same keys.
use netchan.Base.{
  ◌==◌, if◌then◌else◌, Bool-cases, ℕ, ◌≡◌, refl, ◌⊎◌, inl, inr, true, false, some, arith, length,
  List, [], ◌∷◌,
}
use netchan.Crypto.{label_sid, label_i2r, label_r2i, Crypto, bytes_gt}
use netchan.Crypto.Keys.{
  is_zero32, derive_out, static_dh, take_keys, derive_session, accepts_peer, derived, judged,
}
use netchan.Crypto.Primitives.{Monocypher, IsLawful}

-- How two arrays of the same length compare.
bytes_gt_cases :
    (xs ys : List ℕ)
    → length xs ≡ length ys
    → ((bytes_gt xs ys ≡ true) × (bytes_gt ys xs ≡ false))
      ⊎ ((bytes_gt xs ys ≡ false) × (bytes_gt ys xs ≡ true))
      ⊎ ((bytes_gt xs ys ≡ false) × (bytes_gt ys xs ≡ false) × (xs ≡ ys))
unfolding bytes_gt
bytes_gt_cases [] [] h = inr (inr (refl, refl, refl))
bytes_gt_cases [] (y ∷ ys) h = absurd (omega arith)
bytes_gt_cases (x ∷ xs) [] h = absurd (omega arith)
bytes_gt_cases (x ∷ xs) (y ∷ ys) h = ground (arith, bytes_gt_cases xs ys)

abbrev lower : List ℕ → List ℕ → List ℕ
lower xs ys = if bytes_gt xs ys then ys else xs

abbrev upper : List ℕ → List ℕ → List ℕ
upper xs ys = if bytes_gt xs ys then xs else ys

-- Both sides sort the ephemeral keys alike.
sorted_sym :
    (xs ys : List ℕ)
    → length xs ≡ length ys
    → (lower xs ys ≡ lower ys xs) × (upper xs ys ≡ upper ys xs)
sorted_sym xs ys h = ground (arith, bytes_gt_cases xs ys h)

module _ (M : Monocypher) where
  -- A side's public keys belong to its secret ones.
  pub record WellKeyed (c : Crypto) : Type 0 where
    pub ephemeral : c.eph_pk ≡ M.x25519_public_key c.eph_sk
    pub identity : c.have_static ≡ true → c.static_pk ≡ M.x25519_public_key c.static_sk

  -- A side has taken over the other's identity key.
  pub record Knows (c d : Crypto) : Type 0 where
    pub present : c.peer_has_static ≡ d.have_static
    pub key : c.peer_static_pk ≡ d.static_pk

  -- Both have keys: what one seals with, the other opens with, and the session id is the same.
  pub record Agreed (c d : Crypto) : Type 0 where
    pub ready : (c.have_key ≡ true) × (d.have_key ≡ true)
    pub there : c.tx_key ≡ d.rx_key
    pub back : c.rx_key ≡ d.tx_key
    pub session : c.sid ≡ d.sid

  derive_out_sym :
      (i r : Crypto) (ee is si : List ℕ) (label : ℕ)
      → length i.eph_pk ≡ length r.eph_pk
      → Knows i r
      → Knows r i
      → i.psk ≡ r.psk
      → derive_out M ee is si
          (lower i.eph_pk r.eph_pk)
          (upper i.eph_pk r.eph_pk)
          i.static_pk
          i.peer_static_pk
          i.psk
          label
        ≡ derive_out M ee is si
            (lower r.eph_pk i.eph_pk)
            (upper r.eph_pk i.eph_pk)
            r.peer_static_pk
            r.static_pk
            r.psk
            label
  derive_out_sym i r ee is si label len k k' psk =
      let sorted = sorted_sym i.eph_pk r.eph_pk len in
      rw (sorted.0, sorted.1, k.key, k'.key, psk) refl

  take_keys-Agreed :
      (i r : Crypto) (ee is si : List ℕ)
      → length i.eph_pk ≡ length r.eph_pk
      → Knows i r
      → Knows r i
      → i.psk ≡ r.psk
      → Agreed (take_keys M i true r.eph_pk ee is si) (take_keys M r false i.eph_pk ee is si)
  unfolding take_keys
  take_keys-Agreed i r ee is si len k k' psk = record {
    ready = (refl, refl);
    there = derive_out_sym i r ee is si label_i2r len k k' psk;
    back = derive_out_sym i r ee is si label_r2i len k k' psk;
    session = derive_out_sym i r ee is si label_sid len k k' psk;
  }

  -- The Diffie-Hellman result of a static key is the same from both ends.
  static_dh_comm :
      (L : IsLawful M) (c d : Crypto)
      → WellKeyed c
      → WellKeyed d
      → Knows c d
      → static_dh M c.peer_has_static c.eph_sk c.peer_static_pk
        ≡ static_dh M d.have_static d.static_sk c.eph_pk
  unfolding static_dh
  static_dh_comm L c d wc wd k = elim (Bool-cases d.have_static) [
    | inl named ↦
        rw (k.present, k.key, named, wd.identity named, wc.ephemeral)
          (L.x25519_comm c.eph_sk d.static_sk)
    | inr anonymous ↦ rw (k.present, anonymous) refl
  ]

  derive_session_init :
      (c : Crypto) (e : List ℕ)
      → c.role ≡ 0
      → is_zero32 M (M.x25519 c.eph_sk e) ≡ false
      → derive_session M c e
        ≡ some (
            take_keys M c true e
              (M.x25519 c.eph_sk e)
              (static_dh M c.peer_has_static c.eph_sk c.peer_static_pk)
              (static_dh M c.have_static c.static_sk e))
  unfolding derive_session
  derive_session_init c e role good =
      let first : (c.role == 0) ≡ true = ground arith in simp (good, first)

  derive_session_resp :
      (c : Crypto) (e : List ℕ)
      → c.role ≡ 1
      → is_zero32 M (M.x25519 c.eph_sk e) ≡ false
      → derive_session M c e
        ≡ some (
            take_keys M c false e
              (M.x25519 c.eph_sk e)
              (static_dh M c.have_static c.static_sk e)
              (static_dh M c.peer_has_static c.eph_sk c.peer_static_pk))
  unfolding derive_session
  derive_session_resp c e role good =
      let second : (c.role == 0) ≡ false = ground arith in simp (good, second)

  -- The keys of two sides that know one another, where the shared secret is not zero.
  pub judged-Agreed :
      (L : IsLawful M) (i r : Crypto)
      → i.role ≡ 0
      → r.role ≡ 1
      → length i.eph_pk ≡ length r.eph_pk
      → WellKeyed i
      → WellKeyed r
      → Knows i r
      → Knows r i
      → i.psk ≡ r.psk
      → is_zero32 M (M.x25519 i.eph_sk r.eph_pk) ≡ false
      → accepts_peer M i ≡ true
      → accepts_peer M r ≡ true
      → Agreed (judged M i r.eph_pk) (judged M r i.eph_pk)
  unfolding judged derived
  judged-Agreed L i r role role' len wi wr k k' psk good yes_i yes_r =
      let ee : M.x25519 i.eph_sk r.eph_pk ≡ M.x25519 r.eph_sk i.eph_pk =
        rw (wi.ephemeral, wr.ephemeral) (L.x25519_comm i.eph_sk r.eph_sk) in
      let good' : is_zero32 M (M.x25519 r.eph_sk i.eph_pk) ≡ false = rw (← ee) good in
      let is = static_dh_comm L i r wi wr k in
      let si = static_dh_comm L r i wr wi k' in
      rw
        (
          yes_i,
          yes_r,
          derive_session_init i r.eph_pk role good,
          derive_session_resp r i.eph_pk role' good',
          ee,
          is,
          si,
        )
        (take_keys-Agreed i r _ _ _ len k k' psk)
