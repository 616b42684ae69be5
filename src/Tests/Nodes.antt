-- ===== src/Tests/Nodes.antt =====
-- Connections between nodes (src/peer.rs).
use giganto.Prelude.{◌≡◌, refl, true, ◌||◌, none, List, [], ◌∷◌}
use giganto.Bytes.{Bytes}
use giganto.Filter.{v4}
use giganto.Outcome.{Outcome, ok, err}
use giganto.Peer.{PeerInfo, PeerState, contains_peer, update_to_new_peer_list, receive_peers}
use giganto.Peer.Run.{Event, received, run}
use giganto.Peer.Run.Started.{receive_all, start, run-clients}
use giganto.Peer.Update.{foreign}
use giganto.Peer.Connection.{
  update_source_list, PeerConnInfo, Established, Wakeup, accepted, notified,
}
use giganto.Peer.Connection.Exchange.{client_after, server_after, exchange_agrees}
use giganto.Tests.{source}
use giganto.Tests.Peers.{one_peer, own_peer, no_peers}

abbrev undecodable : {A : Type 0} → Bytes → Outcome A
undecodable b = err "invalid list"

abbrev decodes_one : Bytes → Outcome (List Bytes)
decodes_one b = ok (b ∷ [])

abbrev alone : PeerConnInfo
alone = record {
  peer_conn = [];
  peers = no_peers;
  sources = source ∷ [];
  peer_sources = [];
  updates = [];
}

abbrev from_one : Established
from_one = record {
  connection = 5;
  remote_addr = 49 ∷ [];
  remote_host_name = 110 ∷ [];
  exchanged = ok (own_peer ∷ [], (120 ∷ []) ∷ []);
}

abbrev two_wakeups : List Wakeup
two_wakeups = accepted (ok (update_source_list, 121 ∷ [])) ∷ notified ∷ []

abbrev knows_three : PeerState
knows_three = record {
  peer_list = record { ip = v4 3; port = 38383; host_name = 111 ∷ [] } ∷ [];
  sent = [];
  written = none;
}

exchange_agrees_example :
    ((q : PeerInfo)
      → foreign (v4 1) q ≡ true
      → foreign (v4 9) q ≡ true
      → (contains_peer (client_after one_peer knows_three no_peers).peer_list q
          ≡ (contains_peer knows_three.peer_list q || contains_peer [] q))
        × (contains_peer (server_after one_peer own_peer knows_three no_peers).peer_list q
            ≡ (contains_peer knows_three.peer_list q || contains_peer [] q)))
    × (foreign (v4 9) one_peer ≡ true
        → contains_peer (server_after one_peer own_peer knows_three no_peers).peer_list one_peer
          ≡ true)
exchange_agrees_example = exchange_agrees one_peer own_peer knows_three no_peers

-- A node that starts without peers, is told of one and of itself, and accepts a connection.
run-clients_example :
    contains_peer (run true [] (Event.accepted ∷ received one_peer ∷ [])).clients one_peer
    ≡ contains_peer
        (receive_all (v4 9) ((own_peer ∷ one_peer ∷ []) ∷ []) (start [])).peer_list
        one_peer
unfolding update_to_new_peer_list receive_peers
run-clients_example =
    run-clients (v4 9) [] ((own_peer ∷ one_peer ∷ []) ∷ [])
      (Event.accepted ∷ received one_peer ∷ []) one_peer refl
