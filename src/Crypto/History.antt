-- ===== src/Crypto/History.antt =====
-- No counter is opened twice in crypto/nc_crypto.c, whatever arrives in between.
use netchan.Base.{
  ltb, leb, ◌==◌, Bool-cases, is_some, if_cases, ℕ, ◌-◌, ◌≡◌, refl, ◌∙◌, ◌≢◌, ◌⊎◌, inl, inr, Bool,
  true, false, not, ◌||◌, Option, none, some, arith, length, take, drop, List,
}
use netchan.Crypto.{
  hello_tag, data_tag, hello_len, overhead, Crypto, rd64be, bit_set, replay_check_and_update,
}
use netchan.Crypto.Datagrams.{nc_crypto_seal, unlocked, open_plain, open_data, nc_crypto_open}
use netchan.Crypto.Keys.{
  is_zero32, take_keys, derive_session, accepts_peer, derived, heard, judged, consume_hello,
}
use netchan.Crypto.Primitives.{Monocypher}
use netchan.Crypto.Replay.{too_old, seen, seen-shifted, seen-marked}
use netchan.Wire.{byte_at}

abbrev pub seen_by : Crypto → ℕ → Bool
seen_by c n = seen c.rx_max c.rx_window n

-- A counter that is not 0 and was not seen is accepted, and after it exactly it, those seen before and
-- those that are 64 or more below the highest have been seen.
pub replay_check_and_update-seen :
    (c : Crypto) (n m : ℕ)
    → n ≢ 0
    → seen_by c n ≡ false
    → let (fresh, c') = replay_check_and_update c n in
      (fresh ≡ true) × (seen_by c' m ≡ (m == n || (seen_by c m || too_old c'.rx_max m)))
unfolding replay_check_and_update seen
replay_check_and_update-seen c n m ne fresh =
    let some_n : (n == 0) ≡ false = ground arith in
    elim (Bool-cases (ltb c.rx_max n)) [
      | inl above ↦ rw (some_n, above) (refl, seen-shifted c.rx_max c.rx_window n m (ground arith))
      | inr below ↦
          let recent : leb 64 (c.rx_max - n) ≡ false = ground arith in
          let unset : bit_set c.rx_window (c.rx_max - n) ≡ false = ground arith in
          rw (some_n, below, recent, unset)
            (
              refl,
              seen-marked c.rx_max c.rx_window n m (ground arith) (ground arith) (ground arith),
            )
    ]

-- Counter 0 and a counter that was seen are refused, and change nothing.
pub replay_check_and_update_refuses :
    (c : Crypto) (n : ℕ) → (n ≡ 0) ⊎ (seen_by c n ≡ true) → replay_check_and_update c n ≡ (false, c)
unfolding replay_check_and_update seen
replay_check_and_update_refuses c n h = ground arith

replay_check_and_update_keeps :
    (c : Crypto) (n m : ℕ) → seen_by c m ≡ true → seen_by (replay_check_and_update c n).1 m ≡ true
replay_check_and_update_keeps c n m h = elim (Bool-cases (n == 0 || seen_by c n)) [
  | inl refused ↦ rw (replay_check_and_update_refuses c n (ground arith)) h
  | inr fresh ↦ ground (arith, (replay_check_and_update-seen c n m (ground arith) (ground arith)).1)
]

module _ (M : Monocypher) where
  -- Keying leaves the window and the counter as they are.
  abbrev pub Untouched : Crypto → Crypto → Type 0
  Untouched c d =
      (d.rx_max ≡ c.rx_max) × (d.rx_window ≡ c.rx_window) × (d.tx_counter ≡ c.tx_counter)

  derived-Untouched : (c : Crypto) (e : List ℕ) → Untouched c (derived M c (derive_session M c e))
  unfolding derived derive_session take_keys
  derived-Untouched c e = elim (Bool-cases (is_zero32 M (M.x25519 c.eph_sk e))) [
    | inl low ↦ rw low (refl, refl, refl)
    | inr good ↦ elim (Bool-cases (c.role == 0)) [
      | inl init ↦ rw (good, init) (refl, refl, refl)
      | inr resp ↦ rw (good, resp) (refl, refl, refl)
    ]
  ]

  judged-Untouched : (c : Crypto) (e : List ℕ) → Untouched c (judged M c e)
  unfolding judged
  judged-Untouched c e = elim (Bool-cases (accepts_peer M c)) [
    | inl trusted ↦ rw trusted (derived-Untouched c e)
    | inr refused ↦ rw refused (refl, refl, refl)
  ]

  pub consume_hello-Untouched : (c : Crypto) (body : List ℕ) → Untouched c (consume_hello M c body)
  unfolding consume_hello heard
  consume_hello-Untouched c body =
      judged-Untouched (heard M c (take 32 (drop 32 body))) (take 32 body)

  consume_hello-seen_by :
      (c : Crypto) (body : List ℕ) (n : ℕ) → seen_by (consume_hello M c body) n ≡ seen_by c n
  consume_hello-seen_by c body n =
      let (max, window, _) = consume_hello-Untouched c body in rw (max, window) refl

  open_plain-keeps :
      (c : Crypto) (counter n : ℕ) (o : Option (List ℕ))
      → seen_by c n ≡ true
      → seen_by (open_plain M c counter o).1 n ≡ true
  unfolding open_plain unlocked
  open_plain-keeps c counter n none h = h
  open_plain-keeps c counter n (some plain) h = replay_check_and_update_keeps c counter n h

  -- A DATA packet is refused as it is, or goes as far as the primitive.
  open_data_cases :
      (P : Option (List ℕ) × Crypto → Type 0) (c : Crypto) (pkt : List ℕ) (cap : ℕ)
      → P (none, c)
      → ((o : Option (List ℕ)) → P (open_plain M c (rd64be pkt 1) o))
      → P (open_data M c pkt cap)
  unfolding open_data
  open_data_cases P c pkt cap stops tries =
      elim (Bool-cases (not c.have_key || ltb (length pkt) overhead)) [
        | inl small ↦ rw small stops
        | inr whole ↦ elim (Bool-cases (ltb cap (length pkt - overhead))) [
          | inl big ↦ rw (whole, big) stops
          | inr fits ↦ rw (whole, fits) (tries _)
        ]
      ]

  -- So is a packet with the DATA tag.
  nc_crypto_open_cases :
      (P : Option (List ℕ) × Crypto → Type 0) (c : Crypto) (pkt : List ℕ) (cap : ℕ)
      → byte_at pkt 0 ≡ data_tag
      → P (none, c)
      → ((o : Option (List ℕ)) → P (open_plain M c (rd64be pkt 1) o))
      → P (nc_crypto_open M c pkt cap)
  unfolding nc_crypto_open
  nc_crypto_open_cases P c pkt cap tag stops tries =
      let other : (byte_at pkt 0 == hello_tag) ≡ false = ground arith in
      let carries : (byte_at pkt 0 == data_tag) ≡ true = ground arith in
      elim (Bool-cases (ltb (length pkt) 1 || c.failed)) [
        | inl dead ↦ rw dead stops
        | inr live ↦ rw (live, other, carries) (open_data_cases P c pkt cap stops tries)
      ]

  -- What opening can do: nothing, keying, or taking a DATA packet as far as the primitive.
  pub nc_crypto_open_any :
      (P : Crypto → Type 0) (c : Crypto) (pkt : List ℕ) (cap : ℕ)
      → P c
      → P (consume_hello M c (drop 1 pkt))
      → ((o : Option (List ℕ)) → P (open_plain M c (rd64be pkt 1) o).1)
      → P (nc_crypto_open M c pkt cap).1
  unfolding nc_crypto_open
  nc_crypto_open_any P c pkt cap stays keys tries =
      elim (Bool-cases (ltb (length pkt) 1 || c.failed)) [
        | inl dead ↦ rw dead stays
        | inr live ↦ elim (Bool-cases (byte_at pkt 0 == hello_tag)) [
          | inl greets ↦ elim (Bool-cases (length pkt == hello_len)) [
            | inr bad ↦ rw (live, greets, bad) stays
            | inl good ↦
                rw (live, greets, good)
                  (if_cases P c.have_key c (consume_hello M c (drop 1 pkt)) (λ keyed. stays)
                    (λ unkeyed. keys))
          ]
          | inr other ↦ elim (Bool-cases (byte_at pkt 0 == data_tag)) [
            | inl carries ↦
                rw (live, other, carries)
                  (open_data_cases (λ (x : Option (List ℕ) × Crypto). P x.1) c pkt cap stays tries)
            | inr neither ↦ rw (live, other, neither) stays
          ]
        ]
      ]

  nc_crypto_open-keeps :
      (c : Crypto) (pkt : List ℕ) (cap n : ℕ)
      → seen_by c n ≡ true
      → seen_by (nc_crypto_open M c pkt cap).1 n ≡ true
  nc_crypto_open-keeps c pkt cap n h =
      nc_crypto_open_any (λ (x : Crypto). seen_by x n ≡ true) c pkt cap h
        (consume_hello-seen_by c (drop 1 pkt) n ∙ h) (λ o. open_plain-keeps c (rd64be pkt 1) n o h)

  nc_crypto_seal-seen_by :
      (c : Crypto) (plain : List ℕ) (cap n : ℕ)
      → seen_by (nc_crypto_seal M c plain cap).1 n ≡ seen_by c n
  unfolding nc_crypto_seal
  nc_crypto_seal-seen_by c plain cap n = ground arith

  -- One call on a session that has been initialised.
  pub data Step (c : Crypto) : Crypto → Type 0 where
    opens : (pkt : List ℕ) (cap : ℕ) → Step c (nc_crypto_open M c pkt cap).1
    seals : (plain : List ℕ) (cap : ℕ) → Step c (nc_crypto_seal M c plain cap).1

  pub data Reach (c : Crypto) : Crypto → Type 0 where
    here : Reach c c
    next : {d e : Crypto} → Reach c d → Step d e → Reach c e

  Reach-seen_by : {c d : Crypto} (n : ℕ) → Reach c d → seen_by c n ≡ true → seen_by d n ≡ true
  Reach-seen_by n here h = h
  Reach-seen_by n (next {d} r (opens pkt cap)) h =
      nc_crypto_open-keeps d pkt cap n (Reach-seen_by n r h)
  Reach-seen_by n (next {d} r (seals plain cap)) h =
      nc_crypto_seal-seen_by d plain cap n ∙ Reach-seen_by n r h

  -- What a DATA packet does, once its counter is known to be seen or not.
  open_plain-marks :
      (c : Crypto) (counter : ℕ) (o : Option (List ℕ))
      → is_some (open_plain M c counter o).0 ≡ true
      → seen_by (open_plain M c counter o).1 counter ≡ true
  unfolding open_plain unlocked
  open_plain-marks c counter none h = cc
  open_plain-marks c counter (some plain) h =
      elim (Bool-cases (counter == 0 || seen_by c counter)) [
        | inl refused ↦ ground (arith, replay_check_and_update_refuses c counter (ground arith))
        | inr fresh ↦ ground (
          arith,
          (replay_check_and_update-seen c counter counter (ground arith) (ground arith)).1,
        )
      ]

  open_plain-refuses :
      (c : Crypto) (counter : ℕ) (o : Option (List ℕ))
      → seen_by c counter ≡ true
      → (open_plain M c counter o).0 ≡ none
  unfolding open_plain unlocked
  open_plain-refuses c counter none h = refl
  open_plain-refuses c counter (some plain) h =
      rw (replay_check_and_update_refuses c counter (inr h)) refl

  -- A packet that is opened marks its counter, and one whose counter is marked is not opened.
  nc_crypto_open-marks :
      (c : Crypto) (pkt : List ℕ) (cap : ℕ)
      → byte_at pkt 0 ≡ data_tag
      → is_some (nc_crypto_open M c pkt cap).0 ≡ true
      → seen_by (nc_crypto_open M c pkt cap).1 (rd64be pkt 1) ≡ true
  nc_crypto_open-marks c pkt cap tag =
      nc_crypto_open_cases
        (λ (x : Option (List ℕ) × Crypto). is_some x.0 ≡ true → seen_by x.1 (rd64be pkt 1) ≡ true) c
        pkt cap tag (λ h. cc) (λ o. open_plain-marks c (rd64be pkt 1) o)

  nc_crypto_open-refuses :
      (c : Crypto) (pkt : List ℕ) (cap : ℕ)
      → byte_at pkt 0 ≡ data_tag
      → seen_by c (rd64be pkt 1) ≡ true
      → (nc_crypto_open M c pkt cap).0 ≡ none
  nc_crypto_open-refuses c pkt cap tag h =
      nc_crypto_open_cases (λ (x : Option (List ℕ) × Crypto). x.0 ≡ none) c pkt cap tag refl
        (λ o. open_plain-refuses c (rd64be pkt 1) o h)

  -- A DATA packet with the counter of one that was opened before is refused, whatever packets were
  -- opened or sealed on the session in between, whatever it holds and whatever M does.
  pub nc_crypto_open_once :
      {d : Crypto} (c : Crypto) (pkt again : List ℕ) (cap cap' : ℕ)
      → byte_at pkt 0 ≡ data_tag
      → byte_at again 0 ≡ data_tag
      → rd64be again 1 ≡ rd64be pkt 1
      → is_some (nc_crypto_open M c pkt cap).0 ≡ true
      → Reach (nc_crypto_open M c pkt cap).1 d
      → (nc_crypto_open M d again cap').0 ≡ none
  nc_crypto_open_once {d} c pkt again cap cap' tag tag' same opened r =
      nc_crypto_open-refuses d again cap' tag'
        (rw same (Reach-seen_by (rd64be pkt 1) r (nc_crypto_open-marks c pkt cap tag opened)))
