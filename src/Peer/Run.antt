-- ===== src/Peer/Run.antt =====
-- `Peer::run` and `client_run` of src/peer.rs: the tasks that a node starts. The endpoints, the
-- document of the configuration, and what the tasks do are left out.
pub mod Started
use giganto.Prelude.{ℕ, ◌+◌, Bool, true, false, Option, none, some, List, [], ◌∷◌, ◌++◌}
use giganto.Outcome.{Outcome, ok, err}
use giganto.Peer.{PeerInfo}

-- What the `select!` wakes up for: an incoming connection, a peer from the channel, the shutdown.
pub data Event : Type 0 where
  accepted shutdown : Event
  received : PeerInfo → Event

-- The peers for which `client_connection` was started, how often `server_connection` was, and what
-- was returned, if the node has stopped.
pub record Tasks : Type 0 where
  pub clients : List PeerInfo
  pub servers : ℕ
  pub result : Option (Outcome (Unit {0}))

unfoldable pub run_loop : List Event → Tasks → Tasks
run_loop [] s = s
run_loop (accepted ∷ events) s = run_loop events (record s { servers = s.servers + 1 })
run_loop (received peer ∷ events) s =
    run_loop events (record s { clients = s.clients ++ peer ∷ [] })
run_loop (shutdown ∷ events) s = record s { result = some (ok tt) }

-- The tasks of `client_run`.
unfoldable pub client_run : List PeerInfo → List PeerInfo
client_run [] = []
client_run (peer ∷ peers) = peer ∷ client_run peers

-- The first argument is whether the configuration can be read.
unfoldable pub run : Bool → List PeerInfo → List Event → Tasks
unfolding run_loop client_run
run false peers events = record {
  clients = [];
  servers = 0;
  result = some (err "Failed to open/read config's toml file");
}
run true peers events =
    run_loop events (record { clients = client_run peers; servers = 0; result = none })
