-- ===== src/Crypto/Handshake.antt =====
-- The exchange of HELLO packets in crypto/nc_crypto.c, from nc_crypto_init to a first message.
use netchan.Base.{
  ltb, ◌==◌, if◌then◌else◌, Bool-cases, if_cases, some_else, ℕ, suc, ◌≡◌, refl, sym, ap, ◌∙◌, inl,
  inr, Bool, true, false, not, Option, none, some, arith, length, take, drop, length-append,
  take-append, drop-append, take_all, List, [], ◌∷◌, ◌++◌,
}
use netchan.Crypto.{hello_tag, hello_len, zero32, VerifyCb, Crypto, CryptoCfg, no_crypto}
use netchan.Crypto.Agreement.{WellKeyed, Knows, Agreed, judged-Agreed}
use netchan.Crypto.Datagrams.{nc_crypto_open}
use netchan.Crypto.Keys.{
  is_zero32, with_static, with_cfg, seed_of, init_with, nc_crypto_init, accepts_peer, heard, judged,
  consume_hello, nc_crypto_handshake_packet,
}
use netchan.Crypto.Primitives.{Monocypher, IsLawful}

module _ (M : Monocypher) where
  -- A session that nc_crypto_init has set up and no packet has reached.
  pub record Fresh (c : Crypto) : Type 0 where
    pub keyed : WellKeyed M c
    pub size : length c.eph_pk ≡ 32
    pub size_static : length c.static_pk ≡ 32
    pub shown : is_zero32 M c.static_pk ≡ not c.have_static
    pub absent : c.have_static ≡ false → c.static_pk ≡ zero32
    pub unkeyed : c.have_key ≡ false
    pub sound : c.failed ≡ false
    pub no_peer : c.peer_static_pk ≡ zero32
    pub no_counter : c.tx_counter ≡ 0
    pub empty_window : (c.rx_max ≡ 0) × (c.rx_window ≡ 0)

  -- A side as nc_crypto_init leaves it: its keys, the shared key and its policy.
  unfoldable pub fresh_side :
      ℕ → List ℕ → List ℕ → Option (List ℕ) → Bool → Option VerifyCb → Crypto
  fresh_side role sk psk identity require verify =
      record (with_static M
        (record no_crypto { role = role; eph_sk = sk; eph_pk = M.x25519_public_key sk; psk = psk })
        identity) { require_peer_static = require; verify_peer = verify }

  -- The public identity key, if there is one, is not the zeros that stand for none.
  abbrev pub NonZero : Option (List ℕ) → Type 0
  NonZero none = Unit
  NonZero (some sk) = M.verify32 (M.x25519_public_key sk) zero32 ≡ false

  fresh_side-Fresh :
      (L : IsLawful M) (role : ℕ) (sk psk : List ℕ) (identity : Option (List ℕ)) (require : Bool)
      (verify : Option VerifyCb)
      → NonZero identity
      → Fresh (fresh_side role sk psk identity require verify)
  unfolding fresh_side with_static is_zero32
  fresh_side-Fresh L role sk psk none require verify nonzero = record {
    keyed = record { ephemeral = refl; identity = λ e. cc };
    size = L.length-public_key sk;
    size_static = refl;
    shown = L.verify32_self zero32;
    absent = λ e. refl;
    unkeyed = refl;
    sound = refl;
    no_peer = refl;
    no_counter = refl;
    empty_window = (refl, refl);
  }
  fresh_side-Fresh L role sk psk (some key) require verify nonzero = record {
    keyed = record { ephemeral = refl; identity = λ e. refl };
    size = L.length-public_key sk;
    size_static = L.length-public_key key;
    shown = nonzero;
    absent = λ e. cc;
    unkeyed = refl;
    sound = refl;
    no_peer = refl;
    no_counter = refl;
    empty_window = (refl, refl);
  }

  -- The HELLO of c, as the bytes that follow its tag.
  hello_body :
      (c : Crypto) (pkt : List ℕ) (room : ℕ)
      → Fresh c
      → nc_crypto_handshake_packet c room ≡ some pkt
      → hello_tag ∷ (c.eph_pk ++ c.static_pk) ≡ pkt
  unfolding nc_crypto_handshake_packet
  hello_body c pkt room f e =
      let key : (if c.have_static then c.static_pk else zero32) ≡ c.static_pk =
        if_cases (λ (x : List ℕ). x ≡ c.static_pk) c.have_static c.static_pk zero32 (λ named. refl)
          (λ anonymous. sym (f.absent anonymous)) in
      ap (λ (x : List ℕ). hello_tag ∷ (c.eph_pk ++ x)) (sym key)
      ∙ some_else (ltb room hello_len) _ _ e

  -- A first HELLO is taken.
  open_hello :
      (c d : Crypto) (room : ℕ)
      → Fresh c
      → Fresh d
      → nc_crypto_open M d (hello_tag ∷ (c.eph_pk ++ c.static_pk)) room
        ≡ (some [], judged M (heard M d c.static_pk) c.eph_pk)
  unfolding nc_crypto_open consume_hello
  open_hello c d room f g =
      let body = c.eph_pk ++ c.static_pk in
      let size : length body ≡ 64 =
        omega (arith, length-append c.eph_pk c.static_pk, f.size, f.size_static) in
      let whole : (suc (length body) == 65) ≡ true = ground arith in
      let long : ltb (suc (length body)) 1 ≡ false = ground arith in
      let front : take 32 body ≡ c.eph_pk =
        ap (λ (k : ℕ). take k body) (sym f.size) ∙ take-append c.eph_pk c.static_pk in
      let back : drop 32 body ≡ c.static_pk =
        ap (λ (k : ℕ). drop k body) (sym f.size) ∙ drop-append c.eph_pk c.static_pk in
      let all : take 32 c.static_pk ≡ c.static_pk =
        take_all 32 c.static_pk (omega (arith, f.size_static)) in
      simp (long, g.sound, whole, g.unkeyed, back, all, front)

  heard-Knows :
      (c d : Crypto) → Fresh c → Fresh d → Knows M (heard M c d.static_pk) (heard M d c.static_pk)
  unfolding heard
  heard-Knows c d f g = record {
    present = ground (arith, g.shown);
    key = elim (Bool-cases d.have_static) [
      | inl named ↦
          let seen_key : is_zero32 M d.static_pk ≡ false = ground (arith, g.shown) in simp seen_key
      | inr anonymous ↦
          let none_seen : is_zero32 M d.static_pk ≡ true = ground (arith, g.shown) in
          simp none_seen (f.no_peer ∙ sym (g.absent anonymous))
    ];
  }

  -- The static secret of a configuration.
  abbrev pub identity_of : Option CryptoCfg → Option (List ℕ)
  identity_of none = none
  identity_of (some cfg) = cfg.static_sk

  abbrev IsSetUp : ℕ → Crypto → Type 0
  IsSetUp role c = Fresh c × (c.role ≡ role)

  with_static-role : (c : Crypto) (o : Option (List ℕ)) → (with_static M c o).role ≡ c.role
  unfolding with_static
  with_static-role c none = refl
  with_static-role c (some sk) = refl

  with_cfg-IsSetUp :
      (L : IsLawful M) (role : ℕ) (cfg : Option CryptoCfg) (sk : List ℕ)
      → NonZero (identity_of cfg)
      → IsSetUp role (
          with_cfg M
            (record no_crypto { role = role; eph_sk = sk; eph_pk = M.x25519_public_key sk })
            cfg)
  unfolding with_cfg fresh_side with_static
  with_cfg-IsSetUp L role none sk nonzero =
      (fresh_side-Fresh L role sk zero32 none false none nonzero, refl)
  with_cfg-IsSetUp L role (some cfg) sk nonzero = (
    fresh_side-Fresh L role sk _ cfg.static_sk cfg.require_peer_static cfg.verify_peer nonzero,
    with_static-role _ cfg.static_sk,
  )

  init_with-IsSetUp :
      (L : IsLawful M) (role : ℕ) (cfg : Option CryptoCfg) (random : Option (List ℕ)) (c : Crypto)
      → NonZero (identity_of cfg)
      → init_with M role cfg random ≡ some c
      → IsSetUp (if role == 0 then 0 else 1) c
  unfolding init_with
  init_with-IsSetUp L role cfg none c nonzero e = cc
  init_with-IsSetUp L role cfg (some sk) c nonzero e =
      let same : with_cfg M
            (record no_crypto {
              role = if role == 0 then 0 else 1;
              eph_sk = sk;
              eph_pk = M.x25519_public_key sk;
            })
            cfg
          ≡ c =
        cc in
      rw (← same) (with_cfg-IsSetUp L (if role == 0 then 0 else 1) cfg sk nonzero)

  -- Two sides that nc_crypto_init sets up with the same pre-shared key have the same keys once each
  -- has opened the other's HELLO: what one seals with, the other opens with, and the session ids are
  -- equal. Identity keys may be present or not, but none is zero, neither is the shared secret of the
  -- ephemeral keys, each side's policy accepts the other, and monocypher is as IsLawful says.
  pub handshake-Agreed :
      (L : IsLawful M) (cfg cfg' : Option CryptoCfg) (random random' : Option (List ℕ))
      (i r : Crypto) (hi hr : List ℕ) (room : ℕ)
      → nc_crypto_init M 0 cfg random ≡ some i
      → nc_crypto_init M 1 cfg' random' ≡ some r
      → NonZero (identity_of cfg)
      → NonZero (identity_of cfg')
      → i.psk ≡ r.psk
      → is_zero32 M (M.x25519 i.eph_sk r.eph_pk) ≡ false
      → accepts_peer M (heard M i r.static_pk) ≡ true
      → accepts_peer M (heard M r i.static_pk) ≡ true
      → nc_crypto_handshake_packet i room ≡ some hi
      → nc_crypto_handshake_packet r room ≡ some hr
      → Agreed M (nc_crypto_open M i hr room).1 (nc_crypto_open M r hi room).1
  unfolding nc_crypto_init heard
  handshake-Agreed L cfg cfg' random random' i r hi hr room ei er nz nz' psk good yes_i yes_r phi
        phr =
      let (f, role) = init_with-IsSetUp L 0 cfg (seed_of M cfg random) i nz ei in
      let (g, role') = init_with-IsSetUp L 1 cfg' (seed_of M cfg' random') r nz' er in
      let k = heard-Knows i r f g in
      let k' = heard-Knows r i g f in
      rw
        (
          ← hello_body r hr room g phr,
          ← hello_body i hi room f phi,
          open_hello r i room g f,
          open_hello i r room f g,
        )
        (judged-Agreed M L (heard M i r.static_pk) (heard M r i.static_pk) role role'
          (f.size ∙ sym g.size)
          (record { ephemeral = f.keyed.ephemeral; identity = f.keyed.identity })
          (record { ephemeral = g.keyed.ephemeral; identity = g.keyed.identity }) k k' psk good
          yes_i yes_r)
