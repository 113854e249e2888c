-- ===== src/Network/Peers/Reputation.antt =====
-- The size of the peer table, penalties, and bans.
use cytah_speed.Prelude.{
  ℕ, suc, ◌+◌, ◌-◌, ◌*◌, ◌≤◌, ◌<◌, ◌≡◌, ◌≢◌, refl, Bool, true, false, some, List, [], ◌∷◌, arith,
  length, Table, get, insert, remove, get-insert, length-insert, Option-cases, inl, inr, u64_mod,
  ◌∙◌, not, map, retain, values,
}
use cytah_speed.Core.Transaction.{Bytes}
use cytah_speed.Network.Peers.{
  PeerId, PeerInfo, PeerManager, AddResult, get_mut, add_peer, remove_peer, update_peer_status,
  update_peer_height, fresh_peer, i32_sub, raised_score, retain_fresh, cleanup_stale_peers,
  penalize_peer, reward_peer, reconnect_all, reconnect_peers,
}

-- What a caller or a timer does to the table.
pub data PeerEvent : Type 0 where
  add : (now : ℕ) (id : PeerId) (address : Bytes) → PeerEvent
  leave : (id : PeerId) → PeerEvent
  status : (now : ℕ) (id : PeerId) (connected : Bool) → PeerEvent
  height : (id : PeerId) (dag_height : ℕ) → PeerEvent
  cleanup : (now : ℕ) → PeerEvent
  penalty : (now : ℕ) (id : PeerId) (points : ℕ) → PeerEvent
  praise : (id : PeerId) (points : ℕ) → PeerEvent
  reconnect : (now : ℕ) → PeerEvent

unfoldable pub handle : PeerEvent → PeerManager → PeerManager
handle (PeerEvent.add now id address) s = (add_peer now id address s).1
handle (PeerEvent.leave id) s = remove_peer id s
handle (PeerEvent.status now id connected) s = update_peer_status now id connected s
handle (PeerEvent.height id dag_height) s = update_peer_height id dag_height s
handle (PeerEvent.cleanup now) s = cleanup_stale_peers now s
handle (PeerEvent.penalty now id points) s = penalize_peer now id points s
handle (PeerEvent.praise id points) s = reward_peer id points s
handle (PeerEvent.reconnect now) s = reconnect_peers now s

unfoldable pub handle_all : List PeerEvent → PeerManager → PeerManager
handle_all [] s = s
handle_all (e ∷ es) s = handle_all es (handle e s)

length-get_mut :
    {V : Type 0} (k : ℕ) (change : V → V) (m : Table V) → length (get_mut k change m) ≡ length m
unfolding get_mut
length-get_mut k change m = elim (Option-cases (get k m)) [
  | inl e ↦ ground (arith, e)
  | inr (v, e) ↦ ground (arith, e, length-insert k (change v) m)
]

length-remove_le : (id : PeerId) (m : Table PeerInfo) → length (remove id m) ≤ length m
unfolding remove
length-remove_le id [] = omega arith
length-remove_le id ((i, p) ∷ m) = ground (arith, length-remove_le id m)

length-insert_le :
    (id : PeerId) (p : PeerInfo) (m : Table PeerInfo) → length (insert id p m) ≤ suc (length m)
length-insert_le id p m = ground (arith, length-insert id p m)

length-insert_known :
    (id : PeerId) (p q : PeerInfo) (m : Table PeerInfo)
    → get id m ≡ some q
    → length (insert id p m) ≡ length m
length-insert_known id p q m e = ground (arith, e, length-insert id p m)

length-retain_fresh : (now : ℕ) (m : Table PeerInfo) → length (retain_fresh now m) ≤ length m
unfolding retain_fresh
length-retain_fresh now [] = omega arith
length-retain_fresh now ((id, p) ∷ m) = ground (arith, length-retain_fresh now m)

add_peer-le :
    (now : ℕ) (id : PeerId) (address : Bytes) (s : PeerManager)
    → length s.peers ≤ s.max_peers
    → (length (add_peer now id address s).1.peers ≤ s.max_peers)
      × ((add_peer now id address s).1.max_peers ≡ s.max_peers)
unfolding add_peer
add_peer-le now id address s h = elim (Option-cases (get id s.peers)) [
  | inl e ↦ ground (arith, e, length-insert_le id (fresh_peer id address now false) s.peers)
  | inr (q, e) ↦
      ground (arith, e, length-insert_known id (fresh_peer q.peer_id address now true) q s.peers e)
]

length-update_peer_status :
    (now : ℕ) (id : PeerId) (connected : Bool) (s : PeerManager)
    → length (update_peer_status now id connected s).peers ≡ length s.peers
unfolding update_peer_status
length-update_peer_status now id connected s =
    length-get_mut id (λ (p : PeerInfo). record p { is_connected = connected; last_seen = now })
      s.peers

max_peers-update_peer_status :
    (now : ℕ) (id : PeerId) (connected : Bool) (s : PeerManager)
    → (update_peer_status now id connected s).max_peers ≡ s.max_peers
unfolding update_peer_status
max_peers-update_peer_status now id connected s = refl

reconnect_all-eq :
    (now : ℕ) (ids : List PeerId) (s : PeerManager)
    → (length (reconnect_all now ids s).peers ≡ length s.peers)
      × ((reconnect_all now ids s).max_peers ≡ s.max_peers)
unfolding reconnect_all
reconnect_all-eq now [] s = (refl, refl)
reconnect_all-eq now (id ∷ ids) s =
    let (size, limit) = reconnect_all-eq now ids (update_peer_status now id true s) in
    (
      size ∙ length-update_peer_status now id true s,
      limit ∙ max_peers-update_peer_status now id true s,
    )

handle-le :
    (e : PeerEvent) (s : PeerManager)
    → length s.peers ≤ s.max_peers
    → (length (handle e s).peers ≤ s.max_peers) × ((handle e s).max_peers ≡ s.max_peers)
unfolding handle remove_peer update_peer_status update_peer_height cleanup_stale_peers penalize_peer
    reward_peer reconnect_peers
handle-le (PeerEvent.add now id address) s h = add_peer-le now id address s h
handle-le (PeerEvent.leave id) s h = ground (arith, length-remove_le id s.peers)
handle-le (PeerEvent.status now id connected) s h = ground (
  arith,
  length-get_mut id (λ (p : PeerInfo). record p { is_connected = connected; last_seen = now })
      s.peers,
)
handle-le (PeerEvent.height id dag_height) s h =
    ground
      (arith, length-get_mut id (λ (p : PeerInfo). record p { dag_height = dag_height }) s.peers)
handle-le (PeerEvent.cleanup now) s h = ground (arith, length-retain_fresh now s.peers)
handle-le (PeerEvent.penalty now id points) s h = elim (Option-cases (get id s.peers)) [
  | inl e ↦ ground (arith, e)
  | inr (q, e) ↦
      let score = i32_sub q.score points in
      ground (
        arith,
        e,
        length-insert_known id (record q { score = score; is_connected = false }) q s.peers e,
        length-insert_known id (record q { score = score }) q s.peers e,
      )
]
handle-le (PeerEvent.praise id points) s h = ground (
  arith,
  length-get_mut id (λ (p : PeerInfo). record p { score = raised_score p.score points }) s.peers,
)
handle-le (PeerEvent.reconnect now) s h =
    let ids = map (λ p. p.peer_id) (retain (λ p. not p.is_connected) (values s.peers)) in
    ground (arith, reconnect_all-eq now ids s)

-- If a table starts with no more peers than its limit, then whatever is done to it, in whatever
-- order, it holds no more than that limit afterwards.
pub handle_all-bounded :
    (es : List PeerEvent) (s : PeerManager)
    → length s.peers ≤ s.max_peers
    → length (handle_all es s).peers ≤ s.max_peers
unfolding handle_all
handle_all-bounded [] s h = h
handle_all-bounded (e ∷ es) s h =
    ground (arith, handle-le e s h, handle_all-bounded es (handle e s))

-- A known peer whose score is between 1 and 100 loses exactly the points, while that leaves it
-- a point, and stays connected and unbanned; for at least as many points as it has it is
-- disconnected and banned for 24 hours (before the clock overflows).
pub penalize_peer-bans :
    (now : ℕ) (id : PeerId) (points : ℕ) (p : PeerInfo) (s : PeerManager)
    → get id s.peers ≡ some p
    → 1 ≤ p.score
    → p.score ≤ 100
    → points < 2_147_483_648
    → now + 24 * 3600 < u64_mod
    → let s' = penalize_peer now id points s in
      (points < p.score
        → (get id s'.peers ≡ some (record p { score = p.score - points })) × (s'.bans ≡ s.bans))
      × (p.score ≤ points
          → (get id s'.bans ≡ some (now + 24 * 3600))
            × (q : PeerInfo) × (get id s'.peers ≡ some q)
            × (q.is_connected ≡ false))
unfolding penalize_peer
penalize_peer-bans now id points p s known low high small early = (
  λ fewer. ground (arith, known, get-insert id id (record p { score = p.score - points }) s.peers),
  λ enough.
      let banned : PeerInfo = record p { score = i32_sub p.score points; is_connected = false } in
      (
        ground (arith, known, get-insert id id (now + 24 * 3600) s.bans),
        banned,
        ground (arith, known, get-insert id id banned s.peers),
        refl,
      ),
)

-- Under a ban, whatever else holds, adding the peer fails and changes nothing; once the ban has
-- run out and there is room, the call never returns: it takes the write lock on the bans while
-- it holds the read lock.
pub add_peer_banned :
    (now : ℕ) (id : PeerId) (address : Bytes) (expires : ℕ) (s : PeerManager)
    → get id s.bans ≡ some expires
    → ((add_peer now id address s).0 ≢ AddResult.ok)
      × ((add_peer now id address s).1 ≡ s)
      × (length s.peers < s.max_peers
          → expires ≤ now
          → (add_peer now id address s).0 ≡ AddResult.deadlock)
unfolding add_peer
add_peer_banned now id address expires s h = ground (arith, h)
