-- ===== src/Tests/Peers.antt =====
-- Peers and connected sources (src/peer.rs, src/ingest.rs).
use giganto.Prelude.{◌≡◌, ◌↔◌, true, false, none, some, List, [], ◌∷◌}
use giganto.Bytes.{cmp}
use giganto.Int64.{pos}
use giganto.Outcome.{Outcome, ok, err}
use giganto.Filter.{Text, IpAddr, v4, NetworkFilter, Fields, check_network_filter}
use giganto.Filter.Semantics.{AdmitsAddress, AdmitsPort, check_network_filter_iff}
use giganto.Sources.{
  SourceState, Event, tick, source_info, connected, disconnected, check_sources_conn,
}
use giganto.Sources.Maps.{contains_key}
use giganto.Sources.Recorded.{takes, check_sources_conn-connected}
use giganto.Peer.{PeerInfo, PeerState}
use giganto.Tests.{source}

abbrev no_sources : SourceState
no_sources = record { source_store = []; sources = []; packet_sources = []; notified = 0 }

-- The end of an old connection arrives after the start of a new one.
abbrev reconnection : List Event
reconnection =
    source_info source (pos 1) connected false
    ∷ source_info source (pos 5) connected false
    ∷ tick (λ name. pos 7)
    ∷ source_info source (pos 8) disconnected false
    ∷ []

check_sources_conn-connected_example :
    contains_key source (check_sources_conn takes reconnection no_sources).sources ≡ false
unfolding cmp
check_sources_conn-connected_example =
    check_sources_conn-connected takes reconnection no_sources source

abbrev pub one_peer : PeerInfo
one_peer = record { ip = v4 1; port = 38383; host_name = 110 ∷ [] }

abbrev pub own_peer : PeerInfo
own_peer = record { ip = v4 9; port = 38383; host_name = 109 ∷ [] }

abbrev pub no_peers : PeerState
no_peers = record { peer_list = []; sent = []; written = none }

-- Addresses written as one byte.
abbrev pub parse : Text → Outcome IpAddr
parse t = elim t [ [] ↦ err "invalid IP address syntax" | b ∷ bs ↦ ok (v4 b) ]

abbrev pub web_filter : NetworkFilter
web_filter = record {
  orig_addr = some (record { start = some (1 ∷ []); end = some (9 ∷ []) });
  resp_addr = none;
  orig_port = none;
  resp_port = some (record { start = some 80; end = none });
}

abbrev web_event : Fields
web_event = record {
  orig_addr = some (v4 3);
  resp_addr = some (v4 4);
  orig_port = some 5000;
  resp_port = some 80;
  log_level = none;
  log_contents = none;
  text = none;
  source = none;
}

check_network_filter_iff_example :
    (check_network_filter parse web_filter web_event ≡ ok true)
    ↔ AdmitsAddress parse web_filter.orig_addr (some (v4 3))
      × AdmitsAddress parse none (some (v4 4))
      × AdmitsPort none (some 5000)
      × AdmitsPort web_filter.resp_port (some 80)
check_network_filter_iff_example = check_network_filter_iff parse web_filter web_event
