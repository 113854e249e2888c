-- ===== src/Network/Peers.antt =====
-- The peer table (src/network/peer_manager.rs). A peer id is a number; a `HashMap` is a table in
-- the order of its iteration; the clock, in seconds, is an argument. A score is an `i32`, written
-- as a number below 2^32 whose upper half stands for the negative values.
pub mod Reputation
use cytah_speed.Prelude.{
  ℕ, ◌+◌, ◌-◌, ◌*◌, ◌%◌, min, Bool, true, false, not, ◌||◌, Option, none, some, List, [], ◌∷◌, map,
  ◌==◌, leb, ltb, if◌then◌else◌, length, take, retain, Table, get, insert, remove, keys, values,
  u64_mod, wrapping_add,
}
use cytah_speed.Core.Transaction.{Bytes}

abbrev pub PeerId : Type 0
PeerId = ℕ

pub record PeerInfo : Type 0 where
  pub peer_id : PeerId
  pub address : Bytes
  pub last_seen : ℕ
  pub is_connected : Bool
  pub dag_height : ℕ
  pub score : ℕ

pub record PeerManager : Type 0 where
  pub peers : Table PeerInfo
  pub bans : Table ℕ
  pub max_peers : ℕ

-- `PeerManager::new`
unfoldable pub new_manager : ℕ → PeerManager
new_manager max_peers = record { peers = []; bans = []; max_peers = max_peers }

-- `deadlock`: the call waits for a lock that it holds itself, and does not return.
pub data AddResult : Type 0 where
  ok too_many banned already_exists deadlock : AddResult

-- `if let Some(v) = map.get_mut(&k) { .. }`
unfoldable pub get_mut {ℓ} : {V : Type ℓ} → ℕ → (V → V) → Table V → Table V
get_mut k change m = elim (get k m) [ none ↦ m | some v ↦ insert k (change v) m ]

unfoldable pub fresh_peer : PeerId → Bytes → ℕ → Bool → PeerInfo
fresh_peer peer_id address now is_connected = record {
  peer_id = peer_id;
  address = address;
  last_seen = now;
  is_connected = is_connected;
  dag_height = 0;
  score = 100;
}

-- `add_peer`. A ban that has run out is found under the read lock on the bans, which is held
-- until the end of the `if let`, and removed under the write lock on the same bans.
unfoldable pub add_peer : ℕ → PeerId → Bytes → PeerManager → AddResult × PeerManager
unfolding fresh_peer
add_peer now id address s =
    if leb s.max_peers (length s.peers) then (AddResult.too_many, s) else elim (get id s.bans) [
      | some expires ↦ if ltb now expires then (AddResult.banned, s) else (AddResult.deadlock, s)
      | none ↦ elim (get id s.peers) [
        | some existing ↦ if existing.is_connected then (AddResult.already_exists, s) else (
          AddResult.ok,
          record s { peers = insert id (fresh_peer existing.peer_id address now true) s.peers },
        )
        | none ↦
            (AddResult.ok, record s { peers = insert id (fresh_peer id address now false) s.peers })
      ]
    ]

unfoldable pub remove_peer : PeerId → PeerManager → PeerManager
remove_peer id s = record s { peers = remove id s.peers }

unfoldable pub update_peer_status : ℕ → PeerId → Bool → PeerManager → PeerManager
unfolding get_mut
update_peer_status now id connected s = record s {
  peers = get_mut id (λ p. record p { is_connected = connected; last_seen = now }) s.peers;
}

unfoldable pub update_peer_height : PeerId → ℕ → PeerManager → PeerManager
unfolding get_mut
update_peer_height id height s = record s {
  peers = get_mut id (λ p. record p { dag_height = height }) s.peers;
}

unfoldable pub get_connected_peers : PeerManager → List PeerId
get_connected_peers s = map (λ p. p.peer_id) (retain (λ p. p.is_connected) (values s.peers))

unfoldable pub get_all_peers : PeerManager → List PeerId
get_all_peers s = keys s.peers

unfoldable pub get_peer_info : PeerId → PeerManager → Option PeerInfo
get_peer_info id s = get id s.peers

-- The stable sort of `get_sync_peers`, by falling height.
unfoldable pub insert_by_height : PeerInfo → List PeerInfo → List PeerInfo
insert_by_height p [] = p ∷ []
insert_by_height p (q ∷ qs) =
    let rest = insert_by_height p qs in
    if ltb p.dag_height q.dag_height then q ∷ rest else p ∷ q ∷ qs

unfoldable pub sort_by_height : List PeerInfo → List PeerInfo
unfolding insert_by_height
sort_by_height [] = []
sort_by_height (p ∷ ps) = insert_by_height p (sort_by_height ps)

unfoldable pub get_sync_peers : ℕ → PeerManager → List PeerId
unfolding sort_by_height
get_sync_peers count s =
    map (λ p. p.peer_id)
      (take count (sort_by_height (retain (λ p. p.is_connected) (values s.peers))))

-- `now - peer.last_seen > stale_threshold` on `u64`.
abbrev pub is_stale : ℕ → PeerInfo → Bool
is_stale now p = ltb 600 ((now + (u64_mod - p.last_seen)) % u64_mod)

unfoldable pub retain_fresh : ℕ → Table PeerInfo → Table PeerInfo
retain_fresh now [] = []
retain_fresh now ((id, p) ∷ m) =
    let rest = retain_fresh now m in if is_stale now p then rest else (id, p) ∷ rest

-- One round of `cleanup_stale_peers`.
unfoldable pub cleanup_stale_peers : ℕ → PeerManager → PeerManager
unfolding retain_fresh
cleanup_stale_peers now s = record s { peers = retain_fresh now s.peers }

-- The second loop of `reconnect_peers`, over the peers that the first one collected.
unfoldable pub reconnect_all : ℕ → List PeerId → PeerManager → PeerManager
unfolding update_peer_status
reconnect_all now [] s = s
reconnect_all now (id ∷ ids) s = reconnect_all now ids (update_peer_status now id true s)

unfoldable pub reconnect_peers : ℕ → PeerManager → PeerManager
unfolding reconnect_all
reconnect_peers now s =
    reconnect_all now (map (λ p. p.peer_id) (retain (λ p. not p.is_connected) (values s.peers))) s

abbrev pub i32_mod : ℕ
i32_mod = 4_294_967_296

abbrev pub i32_is_negative : ℕ → Bool
i32_is_negative x = leb 2_147_483_648 x

abbrev pub i32_sub : ℕ → ℕ → ℕ
i32_sub x y = (x + (i32_mod - y)) % i32_mod

abbrev pub i32_is_at_most_zero : ℕ → Bool
i32_is_at_most_zero x = x == 0 || i32_is_negative x

-- `penalize_peer`
unfoldable pub penalize_peer : ℕ → PeerId → ℕ → PeerManager → PeerManager
penalize_peer now id points s = elim (get id s.peers) [
  | none ↦ s
  | some p ↦
      let score = i32_sub p.score points in
      if i32_is_at_most_zero score
      then record s {
        peers = insert id (record p { score = score; is_connected = false }) s.peers;
        bans = insert id (wrapping_add now (24 * 3600)) s.bans;
      }
      else record s { peers = insert id (record p { score = score }) s.peers }
]

-- `(score + points).min(100)` on `i32`.
abbrev pub raised_score : ℕ → ℕ → ℕ
raised_score score points =
    let sum = (score + points) % i32_mod in if i32_is_negative sum then sum else min sum 100

unfoldable pub reward_peer : PeerId → ℕ → PeerManager → PeerManager
unfolding get_mut
reward_peer id points s = record s {
  peers = get_mut id (λ p. record p { score = raised_score p.score points }) s.peers;
}
