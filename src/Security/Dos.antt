-- ===== src/Security/Dos.antt =====
-- The protection against denial of service (src/security/dos_protection.rs). Instants are counted
-- in nanoseconds; an address is a number. `u32` and `u64` counters wrap around. The penalty reads
-- the clock again: `later` is that second reading.
pub mod Limits
pub mod Bans
use cytah_speed.Prelude.{
  ℕ, ◌+◌, ◌-◌, ◌*◌, ◌/◌, ◌%◌, Bool, true, false, Option, none, some, List, [], ◌∷◌, ◌++◌, leb, ltb,
  if◌then◌else◌, unwrap_or, length, take, retain, Table, get, insert, remove, wrapping_add,
}

abbrev pub second : ℕ
second = 1_000_000_000

pub record DosProtectionConfig : Type 0 where
  pub max_connections_per_ip : ℕ
  pub max_requests_per_second : ℕ
  pub max_bandwidth_per_second : ℕ
  pub ban_duration_seconds : ℕ
  pub cleanup_interval_seconds : ℕ
  pub max_tracked_ips : ℕ

abbrev pub default_config : DosProtectionConfig
default_config = record {
  max_connections_per_ip = 10;
  max_requests_per_second = 100;
  max_bandwidth_per_second = 10 * 1024 * 1024;
  ban_duration_seconds = 3600;
  cleanup_interval_seconds = 300;
  max_tracked_ips = 10000;
}

pub record PeerState : Type 0 where
  pub connections : ℕ
  pub request_times : List ℕ
  pub bytes_sent : ℕ
  pub bytes_received : ℕ
  pub last_activity : ℕ
  pub banned_until : Option ℕ
  pub violations : ℕ

pub record DosStats : Type 0 where
  pub tracked_ips : ℕ
  pub total_violations : ℕ
  pub bans_issued : ℕ
  pub blocked_connections : ℕ
  pub blocked_requests : ℕ

pub record DosProtection : Type 0 where
  pub config : DosProtectionConfig
  pub peer_states : Table PeerState
  pub stats : DosStats

unfoldable pub new_protection : DosProtectionConfig → DosProtection
new_protection config = record {
  config = config;
  peer_states = [];
  stats = record {
    tracked_ips = 0;
    total_violations = 0;
    bans_issued = 0;
    blocked_connections = 0;
    blocked_requests = 0;
  };
}

pub data DosError : Type 0 where
  banned : (remaining_seconds : ℕ) → DosError
  connection_limit_exceeded rate_limit_exceeded : DosError

pub data DosResult : Type 0 where
  ok : DosResult
  err : DosError → DosResult

unfoldable pub fresh_state : ℕ → PeerState
fresh_state now = record {
  connections = 0;
  request_times = [];
  bytes_sent = 0;
  bytes_received = 0;
  last_activity = now;
  banned_until = none;
  violations = 0;
}

-- `states.entry(ip).or_insert_with(..)`
unfoldable pub entry : ℕ → ℕ → DosProtection → PeerState
unfolding fresh_state
entry now ip d = unwrap_or (get ip d.peer_states) (fresh_state now)

unfoldable pub put : ℕ → PeerState → DosProtection → DosProtection
put ip state d = record d { peer_states = insert ip state d.peer_states }

abbrev pub add_u32 : ℕ → ℕ → ℕ
add_u32 x y = (x + y) % 4_294_967_296

abbrev pub is_active : ℕ → Option ℕ → Bool
is_active now none = false
is_active now (some ban_until) = ltb now ban_until

-- `(ban_until - now).as_secs()`
abbrev pub remaining : ℕ → Option ℕ → ℕ
remaining now none = 0
remaining now (some ban_until) = (ban_until - now) / second

-- `handle_violation`: the third violation bans.
unfoldable pub handle_violation : ℕ → ℕ → PeerState → DosProtection → DosProtection
unfolding put
handle_violation later ip state d =
    let violations = add_u32 state.violations 1 in
    let counted = record d.stats { total_violations = wrapping_add d.stats.total_violations 1 } in
    if leb 3 violations
    then put ip
        (record state {
          violations = violations;
          banned_until = some (later + d.config.ban_duration_seconds * second);
        })
        (record d { stats = record counted { bans_issued = wrapping_add d.stats.bans_issued 1 } })
    else put ip (record state { violations = violations }) (record d { stats = counted })

-- A ban that has run out is forgotten, and the violations with it.
unfoldable pub lift_ban : PeerState → PeerState
lift_ban state = elim state.banned_until [
  | none ↦ state
  | some ban_until ↦ record state { banned_until = none; violations = 0 }
]

unfoldable pub check_connection_allowed : ℕ → ℕ → ℕ → DosProtection → DosResult × DosProtection
unfolding entry put handle_violation lift_ban
check_connection_allowed now later ip d =
    let found = entry now ip d in
    let state = lift_ban found in
    if is_active now found.banned_until
    then (
      DosResult.err (DosError.banned (remaining now found.banned_until)),
      put ip found (record d {
        stats = record d.stats { blocked_connections = wrapping_add d.stats.blocked_connections 1 };
      }),
    )
    else if leb d.config.max_connections_per_ip state.connections
    then (DosResult.err DosError.connection_limit_exceeded, handle_violation later ip state d)
    else (
      DosResult.ok,
      put ip (record state { connections = add_u32 state.connections 1; last_activity = now }) d,
    )

-- `now.duration_since(time) < Duration::from_secs(1)`
abbrev pub is_recent : ℕ → ℕ → Bool
is_recent now time = ltb (now - time) second

unfoldable pub check_request_allowed : ℕ → ℕ → ℕ → DosProtection → DosResult × DosProtection
unfolding entry put handle_violation
check_request_allowed now later ip d =
    let found = entry now ip d in
    let state = record found { request_times = retain (is_recent now) found.request_times } in
    if is_active now found.banned_until
    then (
      DosResult.err (DosError.banned (remaining now found.banned_until)),
      put ip found (record d {
        stats = record d.stats { blocked_requests = wrapping_add d.stats.blocked_requests 1 };
      }),
    )
    else if leb d.config.max_requests_per_second (length state.request_times)
    then (DosResult.err DosError.rate_limit_exceeded, handle_violation later ip state d)
    else (
      DosResult.ok,
      put ip (record state { request_times = state.request_times ++ now ∷ []; last_activity = now })
          d,
    )

unfoldable pub record_bandwidth : ℕ → ℕ → ℕ → ℕ → ℕ → DosProtection → DosProtection
unfolding entry put handle_violation
record_bandwidth now later ip bytes_sent bytes_received d =
    let found = entry now ip d in
    let state = record found {
      bytes_sent = wrapping_add found.bytes_sent bytes_sent;
      bytes_received = wrapping_add found.bytes_received bytes_received;
      last_activity = now;
    } in
    if ltb d.config.max_bandwidth_per_second (wrapping_add state.bytes_sent state.bytes_received)
    then handle_violation later ip state d
    else put ip state d

unfoldable pub remove_connection : ℕ → DosProtection → DosProtection
unfolding put
remove_connection ip d = elim (get ip d.peer_states) [
  | none ↦ d
  | some state ↦
      if ltb 0 state.connections
      then put ip (record state { connections = state.connections - 1 }) d
      else d
]

-- The `retain` of the clean-up task: old entries go, and those idle for a second lose their
-- byte counters.
unfoldable pub retain_active : DosProtectionConfig → ℕ → Table PeerState → Table PeerState
retain_active config now [] = []
retain_active config now ((ip, state) ∷ m) =
    let rest = retain_active config now m in
    let age = now - state.last_activity in
    if ltb (config.cleanup_interval_seconds * 2 * second) age
    then rest
    else if ltb second age
    then (ip, record state { bytes_sent = 0; bytes_received = 0 }) ∷ rest
    else (ip, state) ∷ rest

-- The stable sort by the last activity.
unfoldable pub insert_by_activity : ℕ × ℕ → List (ℕ × ℕ) → List (ℕ × ℕ)
insert_by_activity e [] = e ∷ []
insert_by_activity e (f ∷ fs) =
    let rest = insert_by_activity e fs in if ltb f.1 e.1 then f ∷ rest else e ∷ f ∷ fs

unfoldable pub by_activity : Table PeerState → List (ℕ × ℕ)
unfolding insert_by_activity
by_activity [] = []
by_activity ((ip, state) ∷ m) = insert_by_activity (ip, state.last_activity) (by_activity m)

unfoldable pub remove_each : List (ℕ × ℕ) → Table PeerState → Table PeerState
remove_each [] m = m
remove_each (e ∷ es) m = remove_each es (remove e.0 m)

-- One tick of the clean-up task.
unfoldable pub cleanup : ℕ → DosProtection → DosProtection
unfolding retain_active by_activity remove_each
cleanup now d =
    let kept = retain_active d.config now d.peer_states in
    let states =
      if ltb d.config.max_tracked_ips (length kept)
      then remove_each (take (length kept - d.config.max_tracked_ips) (by_activity kept)) kept
      else kept in
    record d { peer_states = states; stats = record d.stats { tracked_ips = length states } }

unfoldable pub unban_ip : ℕ → DosProtection → DosProtection
unfolding put
unban_ip ip d = elim (get ip d.peer_states) [
  | none ↦ d
  | some state ↦ put ip (record state { banned_until = none; violations = 0 }) d
]

unfoldable pub is_banned : ℕ → ℕ → DosProtection → Bool
is_banned now ip d = elim (get ip d.peer_states) [
  | none ↦ false
  | some state ↦ is_active now state.banned_until
]
