-- ===== src/Security/Dos/Bans.antt =====
-- What a ban does, and which violation brings it.
use cytah_speed.Prelude.{
  ℕ, ◌+◌, ◌-◌, ◌*◌, ◌/◌, ◌≤◌, ◌<◌, ◌≡◌, ◌↔◌, true, false, none, some, arith, get, get-insert,
}
use cytah_speed.Security.Dos.{
  add_u32, second, PeerState, DosProtection, DosError, DosResult, check_connection_allowed,
  check_request_allowed, is_banned,
}

-- While a ban runs, both checks refuse the address with the whole seconds that are left, and
-- keep its entry; once it has run out, a connection below the limit is accepted, and the ban and
-- the violations are forgotten.
pub check_banned :
    (now later ip until : ℕ) (state : PeerState) (d : DosProtection)
    → get ip d.peer_states ≡ some state
    → state.banned_until ≡ some until
    → (now < until
        → ((check_connection_allowed now later ip d).0
            ≡ DosResult.err (DosError.banned ((until - now) / second)))
          × (get ip (check_connection_allowed now later ip d).1.peer_states ≡ some state)
          × ((check_request_allowed now later ip d).0
              ≡ DosResult.err (DosError.banned ((until - now) / second)))
          × (get ip (check_request_allowed now later ip d).1.peer_states ≡ some state))
      × (until ≤ now
          → state.connections < d.config.max_connections_per_ip
          → ((check_connection_allowed now later ip d).0 ≡ DosResult.ok)
            × (is_banned now ip (check_connection_allowed now later ip d).1 ≡ false))
unfolding check_connection_allowed check_request_allowed is_banned
check_banned now later ip until state d found banned = (
  λ running. (
    ground (arith, found),
    ground (arith, found, get-insert ip ip state d.peer_states),
    ground (arith, found),
    ground (arith, found, get-insert ip ip state d.peer_states),
  ),
  λ over room. (
    ground (arith, found),
    ground (
      arith,
      found,
      get-insert ip ip
          (record state {
            banned_until = none;
            violations = 0;
            connections = add_u32 state.connections 1;
            last_activity = now;
          })
          d.peer_states,
    ),
  ),
)

-- A connection over the limit from an address that is not banned is refused, and the address is
-- banned from then on if it already had two violations: until the ban's duration after the
-- violation, and not longer. The counter of violations has 32 bits.
pub violation_bans :
    (now later ip : ℕ) (state : PeerState) (d : DosProtection)
    → get ip d.peer_states ≡ some state
    → state.banned_until ≡ none
    → state.violations < 4_294_967_295
    → d.config.max_connections_per_ip ≤ state.connections
    → ((check_connection_allowed now later ip d).0
        ≡ DosResult.err DosError.connection_limit_exceeded)
      × ((t : ℕ)
          → (is_banned t ip (check_connection_allowed now later ip d).1 ≡ true)
            ↔ ((2 ≤ state.violations) × (t < later + d.config.ban_duration_seconds * second)))
unfolding check_connection_allowed is_banned
violation_bans now later ip state d found free few over =
    let counted : PeerState = record state { violations = add_u32 state.violations 1 } in
    let stored = get-insert ip ip counted d.peer_states in
    let stored_ban =
      get-insert ip ip
        (record counted { banned_until = some (later + d.config.ban_duration_seconds * second) })
        d.peer_states in
    (
      ground (arith, found),
      λ t. (
        λ h. ground (arith, found, stored, stored_ban),
        λ h. ground (arith, found, stored, stored_ban),
      ),
    )
