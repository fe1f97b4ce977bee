-- ===== src/Packet/Admission.antt =====
-- Which packets netchan_feed lets in, and when it follows a peer to another address.
use netchan.Base.{
  ltb, ◌==◌, Bool-cases, is_some, ℕ, ◌≡◌, refl, ◌≢◌, ◌⊎◌, inl, inr, true, not, ◌&&◌, some, arith,
  List,
}
use netchan.Packet.{validate_migration, same_addr, peer_after}
use netchan.Types.{ConnState, new, connecting, connected, closing, closed, is_connected, Addr, Conn}
use netchan.Wire.{byte_at}

is_connected-eq : (s : ConnState) → is_connected s ≡ true → s ≡ connected
is_connected-eq connected h = refl
is_connected-eq new h = cc
is_connected-eq connecting h = cc
is_connected-eq closing h = cc
is_connected-eq closed h = cc

validate_migration_sound :
    (c : Conn) (frames : List ℕ)
    → validate_migration c frames ≡ true
    → ((byte_at frames 0 ≡ 9) ⊎ (byte_at frames 0 ≡ 10))
      × (is_some (c.channels (byte_at frames 1)) ≡ true)
unfolding validate_migration
validate_migration_sound c frames h = ground arith

-- If a packet changes the peer's address, then to the address it came from; and either none was known,
-- or the session is connected and the packet's first frame is DATA or ACK for a channel in the table.
pub peer_after_guard :
    (c : Conn) (from : Addr) (frames : List ℕ)
    → peer_after c (some from) frames ≢ c.peer_addr
    → (peer_after c (some from) frames ≡ from)
      × ((c.peer_addr.len ≡ 0)
          ⊎ (c.state ≡ connected)
            × ((byte_at frames 0 ≡ 9) ⊎ (byte_at frames 0 ≡ 10))
            × (is_some (c.channels (byte_at frames 1)) ≡ true))
unfolding peer_after
peer_after_guard c from frames ne =
    elim (Bool-cases (ltb 0 from.len && (ltb 0 c.peer_addr.len && is_connected c.state))) [
      | inl e₁ ↦
          elim (Bool-cases (not (same_addr from c.peer_addr) && validate_migration c frames)) [
            | inl e₂ ↦
                rw (e₁, e₂)
                  (
                    refl,
                    inr (
                      is_connected-eq c.state (ground arith),
                      (validate_migration_sound c frames (ground arith)).0,
                      (validate_migration_sound c frames (ground arith)).1,
                    ),
                  )
            | inr e₂ ↦ absurd (ne (rw (e₁, e₂) refl))
          ]
      | inr e₁ ↦ elim (Bool-cases (c.peer_addr.len == 0 && ltb 0 from.len)) [
        | inl e₂ ↦ rw (e₁, e₂) (refl, inl (ground arith))
        | inr e₂ ↦ absurd (ne (rw (e₁, e₂) refl))
      ]
    ]
