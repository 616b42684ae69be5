-- ===== src/Peer/Connection/Reconnected.antt =====
-- A node that connects again after its connection was lost (`client_connection` of src/peer.rs).
use giganto.Prelude.{ℕ, List}
use giganto.Bytes.{Bytes}
use giganto.Outcome.{Outcome}
use giganto.Filter.{IpAddr}
use giganto.Peer.{PeerInfo}
use giganto.Peer.Update.{delivers_all}
use giganto.Peer.Connection.{PeerConnInfo}
use giganto.Peer.Connection.Client.{Attempt, client_connection}

module _ (local_address : IpAddr) (decode_peers : Bytes → Outcome (List PeerInfo))
    (decode_sources : Bytes → Outcome (List Bytes)) where
  -- The state in which `client_connection` is after such attempts.
  abbrev after : List Attempt → ℕ → PeerConnInfo → PeerConnInfo
  after attempts waits s =
      (client_connection delivers_all local_address decode_peers decode_sources attempts waits
        s).0.1
