-- ===== src/Security/Dos/Limits.antt =====
-- Whatever happens, no address has more connections or recent requests than the limits allow.
use cytah_speed.Prelude.{
  ℕ, ◌-◌, ◌*◌, wrapping_add, ◌≤◌, ◌<◌, ◌≡◌, refl, some, List, [], ◌∷◌, arith, leb, ltb, length,
  Table, get, insert, remove, Option-cases, inl, inr, retain, take, length-append, Bool, All,
  if_ind, ◌∙◌, subst, sym, ap, All-get, All-insert, All-remove,
}
use cytah_speed.Security.Dos.{
  is_active, DosResult, second, add_u32, DosProtectionConfig, PeerState, DosProtection, fresh_state,
  entry, put, handle_violation, lift_ban, check_connection_allowed, check_request_allowed,
  record_bandwidth, remove_connection, retain_active, remove_each, cleanup, unban_ip, is_recent,
  by_activity,
}

abbrev pub IsWithin : DosProtectionConfig → PeerState → Type 0
IsWithin config state =
    (state.connections ≤ config.max_connections_per_ip)
    × (length state.request_times ≤ config.max_requests_per_second)

abbrev pub AllWithin : DosProtectionConfig → Table PeerState → Type 0
AllWithin config m = All (λ (e : ℕ × PeerState). IsWithin config e.1) m

-- The calls that the node and the clean-up timer make.
pub data DosEvent : Type 0 where
  connection : (now later ip : ℕ) → DosEvent
  request : (now later ip : ℕ) → DosEvent
  bandwidth : (now later ip bytes_sent bytes_received : ℕ) → DosEvent
  closed : (ip : ℕ) → DosEvent
  tick : (now : ℕ) → DosEvent
  unban : (ip : ℕ) → DosEvent

unfoldable pub handle : DosEvent → DosProtection → DosProtection
handle (DosEvent.connection now later ip) d = (check_connection_allowed now later ip d).1
handle (DosEvent.request now later ip) d = (check_request_allowed now later ip d).1
handle (DosEvent.bandwidth now later ip bytes_sent bytes_received) d =
    record_bandwidth now later ip bytes_sent bytes_received d
handle (DosEvent.closed ip) d = remove_connection ip d
handle (DosEvent.tick now) d = cleanup now d
handle (DosEvent.unban ip) d = unban_ip ip d

unfoldable pub handle_all : List DosEvent → DosProtection → DosProtection
handle_all [] d = d
handle_all (e ∷ es) d = handle_all es (handle e d)

abbrev EntryWithin : DosProtectionConfig → ℕ × PeerState → Type 0
EntryWithin config e = IsWithin config e.1

get-AllWithin :
    (config : DosProtectionConfig) (ip : ℕ) (state : PeerState) (m : Table PeerState)
    → AllWithin config m
    → get ip m ≡ some state
    → IsWithin config state
get-AllWithin config ip state m h e = All-get (EntryWithin config) ip state m h e

insert-AllWithin :
    (config : DosProtectionConfig) (k : ℕ) (state : PeerState) (m : Table PeerState)
    → IsWithin config state
    → AllWithin config m
    → AllWithin config (insert k state m)
insert-AllWithin config k state m one rest = All-insert (EntryWithin config) k state m one rest

length-retain_le : (p : ℕ → Bool) (xs : List ℕ) → length (retain p xs) ≤ length xs
length-retain_le p [] = omega arith
length-retain_le p (x ∷ xs) = ground (arith, length-retain_le p xs)

entry-IsWithin :
    (now ip : ℕ) (d : DosProtection)
    → AllWithin d.config d.peer_states
    → IsWithin d.config (entry now ip d)
unfolding entry fresh_state
entry-IsWithin now ip d within = elim (Option-cases (get ip d.peer_states)) [
  | inl e ↦ ground (arith, e)
  | inr (state, e) ↦ ground (arith, e, get-AllWithin d.config ip state d.peer_states within e)
]

-- What a call keeps: the configuration, and the limits.
abbrev Keeps : DosProtection → DosProtection → Type 0
Keeps d d' = AllWithin d.config d'.peer_states × (d'.config ≡ d.config)

handle_violation-Keeps :
    (later ip : ℕ) (state : PeerState) (d : DosProtection)
    → IsWithin d.config state
    → AllWithin d.config d.peer_states
    → Keeps d (handle_violation later ip state d)
unfolding handle_violation put
handle_violation-Keeps later ip state d one rest =
    if_ind (Keeps d) (leb 3 (add_u32 state.violations 1))
      (λ _. (insert-AllWithin d.config ip _ d.peer_states one rest, refl))
      (λ _. (insert-AllWithin d.config ip _ d.peer_states one rest, refl))

lift_ban-IsWithin :
    (config : DosProtectionConfig) (state : PeerState)
    → IsWithin config state
    → IsWithin config (lift_ban state)
unfolding lift_ban
lift_ban-IsWithin config state one = elim (Option-cases state.banned_until) [
  | inl e ↦ ground (arith, e)
  | inr (until, e) ↦ ground (arith, e)
]

check_connection-Keeps :
    (now later ip : ℕ) (d : DosProtection)
    → d.config.max_connections_per_ip < 4_294_967_296
    → AllWithin d.config d.peer_states
    → Keeps d (check_connection_allowed now later ip d).1
unfolding check_connection_allowed put
check_connection-Keeps now later ip d small rest =
    let known = entry now ip d in
    let one = entry-IsWithin now ip d rest in
    let state = lift_ban known in
    let lifted = lift_ban-IsWithin d.config known one in
    if_ind (λ (r : DosResult × DosProtection). Keeps d r.1) (is_active now known.banned_until)
      (λ _. (insert-AllWithin d.config ip known d.peer_states one rest, refl))
      (λ _.
        if_ind (λ (r : DosResult × DosProtection). Keeps d r.1)
          (leb d.config.max_connections_per_ip state.connections)
          (λ _. handle_violation-Keeps later ip state d lifted rest)
          (λ below. (
            insert-AllWithin d.config ip _ d.peer_states (ground (arith, lifted), lifted.1) rest,
            refl,
          )))

check_request-Keeps :
    (now later ip : ℕ) (d : DosProtection)
    → AllWithin d.config d.peer_states
    → Keeps d (check_request_allowed now later ip d).1
unfolding check_request_allowed put
check_request-Keeps now later ip d rest =
    let known = entry now ip d in
    let one = entry-IsWithin now ip d rest in
    let times = retain (is_recent now) known.request_times in
    let state : PeerState = record known { request_times = times } in
    let trimmed : IsWithin d.config state =
      (one.0, omega (arith, one.1, length-retain_le (is_recent now) known.request_times)) in
    if_ind (λ (r : DosResult × DosProtection). Keeps d r.1) (is_active now known.banned_until)
      (λ _. (insert-AllWithin d.config ip known d.peer_states one rest, refl))
      (λ _.
        if_ind (λ (r : DosResult × DosProtection). Keeps d r.1)
          (leb d.config.max_requests_per_second (length times))
          (λ _. handle_violation-Keeps later ip state d trimmed rest)
          (λ below. (
            insert-AllWithin d.config ip _ d.peer_states
                (one.0, ground (arith, length-append times (now ∷ []))) rest,
            refl,
          )))

record_bandwidth-Keeps :
    (now later ip bytes_sent bytes_received : ℕ) (d : DosProtection)
    → AllWithin d.config d.peer_states
    → Keeps d (record_bandwidth now later ip bytes_sent bytes_received d)
unfolding record_bandwidth put
record_bandwidth-Keeps now later ip bytes_sent bytes_received d rest =
    let known = entry now ip d in
    let one = entry-IsWithin now ip d rest in
    let state : PeerState = record known {
      bytes_sent = wrapping_add known.bytes_sent bytes_sent;
      bytes_received = wrapping_add known.bytes_received bytes_received;
      last_activity = now;
    } in
    if_ind (Keeps d)
      (ltb d.config.max_bandwidth_per_second (wrapping_add state.bytes_sent state.bytes_received))
      (λ _. handle_violation-Keeps later ip state d one rest)
      (λ _. (insert-AllWithin d.config ip state d.peer_states one rest, refl))

remove_connection-Keeps :
    (ip : ℕ) (d : DosProtection)
    → AllWithin d.config d.peer_states
    → Keeps d (remove_connection ip d)
unfolding remove_connection put
remove_connection-Keeps ip d rest = elim (Option-cases (get ip d.peer_states)) [
  | inl absent ↦ rw (absent, remove_connection) (rest, refl)
  | inr (state, present) ↦
      let one = get-AllWithin d.config ip state d.peer_states rest present in
      rw (present, remove_connection)
        (if_ind (Keeps d) (ltb 0 state.connections)
          (λ _.
            (insert-AllWithin d.config ip _ d.peer_states (omega (arith, one.0), one.1) rest, refl))
          (λ _. (rest, refl)))
]

unban_ip-Keeps :
    (ip : ℕ) (d : DosProtection) → AllWithin d.config d.peer_states → Keeps d (unban_ip ip d)
unfolding unban_ip put
unban_ip-Keeps ip d rest = elim (Option-cases (get ip d.peer_states)) [
  | inl absent ↦ rw (absent, unban_ip) (rest, refl)
  | inr (state, present) ↦
      let one = get-AllWithin d.config ip state d.peer_states rest present in
      rw (present, unban_ip) (insert-AllWithin d.config ip _ d.peer_states one rest, refl)
]

retain_active-AllWithin :
    (config : DosProtectionConfig) (now : ℕ) (m : Table PeerState)
    → AllWithin config m
    → AllWithin config (retain_active config now m)
unfolding retain_active
retain_active-AllWithin config now [] h = tt
retain_active-AllWithin config now ((ip, state) ∷ m) h =
    let below = retain_active-AllWithin config now m h.1 in
    let age = now - state.last_activity in
    if_ind (AllWithin config) (ltb (config.cleanup_interval_seconds * 2 * second) age) (λ _. below)
      (λ _. if_ind (AllWithin config) (ltb second age) (λ _. (h.0, below)) (λ _. (h.0, below)))

remove_each-AllWithin :
    (config : DosProtectionConfig) (es : List (ℕ × ℕ)) (m : Table PeerState)
    → AllWithin config m
    → AllWithin config (remove_each es m)
unfolding remove_each
remove_each-AllWithin config [] m h = h
remove_each-AllWithin config (e ∷ es) m h =
    remove_each-AllWithin config es (remove e.0 m) (All-remove (EntryWithin config) e.0 m h)

cleanup-Keeps :
    (now : ℕ) (d : DosProtection) → AllWithin d.config d.peer_states → Keeps d (cleanup now d)
unfolding cleanup
cleanup-Keeps now d rest =
    let all = retain_active d.config now d.peer_states in
    let kept = retain_active-AllWithin d.config now d.peer_states rest in
    (
      if_ind (AllWithin d.config) (ltb d.config.max_tracked_ips (length all))
          (λ _.
            remove_each-AllWithin d.config
              (take (length all - d.config.max_tracked_ips) (by_activity all)) all kept)
          (λ _. kept),
      refl,
    )

handle-Keeps :
    (e : DosEvent) (d : DosProtection)
    → d.config.max_connections_per_ip < 4_294_967_296
    → AllWithin d.config d.peer_states
    → Keeps d (handle e d)
unfolding handle
handle-Keeps (DosEvent.connection now later ip) d small rest =
    check_connection-Keeps now later ip d small rest
handle-Keeps (DosEvent.request now later ip) d small rest = check_request-Keeps now later ip d rest
handle-Keeps (DosEvent.bandwidth now later ip sent received) d small rest =
    record_bandwidth-Keeps now later ip sent received d rest
handle-Keeps (DosEvent.closed ip) d small rest = remove_connection-Keeps ip d rest
handle-Keeps (DosEvent.tick now) d small rest = cleanup-Keeps now d rest
handle-Keeps (DosEvent.unban ip) d small rest = unban_ip-Keeps ip d rest

-- From a state within the limits (such as the empty one), whatever calls and clean-ups follow,
-- in whatever order and at whatever times, no address ever has more connections or more
-- remembered requests than the configuration allows, which itself stays as it was. The limit on
-- connections is a 32-bit number.
pub handle_all-AllWithin :
    (es : List DosEvent) (d : DosProtection)
    → d.config.max_connections_per_ip < 4_294_967_296
    → AllWithin d.config d.peer_states
    → AllWithin d.config (handle_all es d).peer_states × ((handle_all es d).config ≡ d.config)
unfolding handle_all
handle_all-AllWithin [] d small rest = (rest, refl)
handle_all-AllWithin (e ∷ es) d small rest =
    let (kept, same) = handle-Keeps e d small rest in
    let within =
      subst (λ (c : DosProtectionConfig). AllWithin c (handle e d).peer_states) (sym same) kept in
    let after =
      handle_all-AllWithin es (handle e d)
        (omega (arith, ap (λ (c : DosProtectionConfig). c.max_connections_per_ip) same)) within in
    (
      subst (λ (c : DosProtectionConfig). AllWithin c (handle_all es (handle e d)).peer_states) same
          after.0,
      after.1 ∙ same,
    )
