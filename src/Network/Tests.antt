-- ===== src/Network/Tests.antt =====
-- The theorems on the network layer, at concrete inputs.
use cytah_speed.Prelude.{◌≤◌, true, List, [], ◌∷◌, arith, length}
use cytah_speed.Network.Peers.{PeerInfo, PeerManager}
use cytah_speed.Network.Peers.Reputation.{PeerEvent, handle_all, handle_all-bounded}

abbrev peer : PeerInfo
peer = record {
  peer_id = 4;
  address = [];
  last_seen = 10;
  is_connected = true;
  dag_height = 2;
  score = 50;
}

abbrev one_peer : PeerManager
one_peer = record { peers = (4, peer) ∷ []; bans = (5, 90) ∷ []; max_peers = 2 }

abbrev busy_day : List PeerEvent
busy_day =
    PeerEvent.add 20 6 []
    ∷ PeerEvent.add 21 7 []
    ∷ PeerEvent.penalty 22 4 60
    ∷ PeerEvent.leave 6
    ∷ PeerEvent.reconnect 30
    ∷ PeerEvent.cleanup 900
    ∷ []

handle_all-bounded_example : length (handle_all busy_day one_peer).peers ≤ 2
handle_all-bounded_example = handle_all-bounded busy_day one_peer (omega arith)
