-- ===== src/Peer/Connection.antt =====
-- The connections between the nodes (src/peer.rs): `server_connection`, what it shares with
-- `client_connection`, `handle_request` and what the nodes send each other. A connection is a number. What the network, the
-- handshake and `bincode` give are inputs; what another task does between two steps of this one is
-- left out.
pub mod Client
pub mod Ended
pub mod Exchange
pub mod Retry
pub mod Reconnected
use giganto.Prelude.{
  ℕ, ◌+◌, Bool, true, false, Option, none, some, List, [], ◌∷◌, ◌++◌, map, String, if◌then◌else◌,
  reverse, length, ◌==◌,
}
use giganto.Bytes.{Bytes, to_be, of_be}
use giganto.Outcome.{Outcome, ok, err, ◌>>=◌}
use giganto.Filter.{IpAddr}
use giganto.Sources.{Map, insert, remove}
use giganto.Sources.Connection.{ConnectionError, application_closed, other_error}
use giganto.Peer.{
  PeerInfo, PeerState, contains_peer, update_to_new_peer_list, update_to_new_source_list,
  check_for_duplicate_connections,
}

pub data PeerCode : Type 0 where
  update_peer_list update_source_list : PeerCode

abbrev pub code_number : PeerCode → ℕ
code_number update_peer_list = 0
code_number update_source_list = 1

-- `TryFromPrimitive`
abbrev pub peer_code : ℕ → Outcome PeerCode
peer_code n =
    if n == 0
    then ok update_peer_list
    else if n == 1
    then ok update_source_list
    else err "unknown peer code"

-- The parts of a message on a stream: the bytes that `recv_bytes` reads, and those of `recv_raw`.
unfoldable pub send_peer_data :
    {A : Type 0} → (A → Outcome Bytes) → PeerCode → A → Outcome (List Bytes)
send_peer_data serialize msg update_data = do
  buf ← serialize update_data
  ok (reverse (to_be 4 (code_number msg)) ∷ buf ∷ [])

-- The first read is of four bytes.
unfoldable pub receive_peer_data : List Bytes → Outcome (PeerCode × Bytes)
receive_peer_data (code ∷ buf ∷ rest) =
    if length code == 4
    then (do msg_type ← peer_code (of_be (reverse code)); ok (msg_type, buf))
    else err "failed to receive bytes"
receive_peer_data _ = err "failed to receive bytes"

-- What a task sends to the connected peers.
pub data Update : Type 0 where
  peers_update : List PeerInfo → Update
  sources_update : List Bytes → Update

-- `PeerConnInfo`, and the updates that were handed to the tasks that send them.
pub record PeerConnInfo : Type 0 where
  pub peer_conn : Map ℕ
  pub peers : PeerState
  pub sources : List Bytes
  pub peer_sources : Map (List Bytes)
  pub updates : List (ℕ × Update)

-- What the exchange of the lists gives: the peers and the sources of the other node.
abbrev pub Lists : Type 0
Lists = List PeerInfo × List Bytes

-- A connection whose handshake succeeded: its number, the address and the host of the other node,
-- and how the exchange ended.
pub record Established : Type 0 where
  pub connection : ℕ
  pub remote_addr : Bytes
  pub remote_host_name : Bytes
  pub exchanged : Outcome Lists

-- What the `select!` of a connection wakes up for: the end of the connection, a change of the
-- sources, and the shutdown. The task that is started for a stream runs concurrently: `accepted` is
-- the moment at which it handles the request, with what `receive_peer_data` gives; it may come
-- behind the connection's end.
pub data Wakeup : Type 0 where
  accepted : Outcome (PeerCode × Bytes) → Wakeup
  connection_lost : ConnectionError → Wakeup
  notified shutdown : Wakeup

-- To every connected peer.
abbrev pub share : Update → PeerConnInfo → PeerConnInfo
share u s = record s { updates = s.updates ++ map (λ e. (e.1, u)) s.peer_conn }

module _ (delivers : List PeerInfo → Bool) (local_address : IpAddr)
    (decode_peers : Bytes → Outcome (List PeerInfo))
    (decode_sources : Bytes → Outcome (List Bytes)) where
  unfoldable pub receive_list : List PeerInfo → PeerConnInfo → Outcome (Unit {0}) × PeerConnInfo
  unfolding update_to_new_peer_list
  receive_list peers s =
      let (r, peers') = update_to_new_peer_list delivers local_address peers s.peers in
      (r, record s { peers = peers' })

  unfoldable pub handle_request :
      Bytes → Outcome (PeerCode × Bytes) → PeerConnInfo → Outcome (Unit {0}) × PeerConnInfo
  unfolding receive_list
  handle_request remote_addr (err e) s = (err e, s)
  handle_request remote_addr (ok (update_peer_list, msg_buf)) s = elim (decode_peers msg_buf) [
    | err e ↦ (err e, s)
    | ok peers ↦ receive_list peers s
  ]
  handle_request remote_addr (ok (update_source_list, msg_buf)) s = elim (decode_sources msg_buf) [
    | err e ↦ (err e, s)
    | ok sources ↦ (
      ok tt,
      record s { peer_sources = update_to_new_source_list sources remote_addr s.peer_sources },
    )
  ]

  -- From the check for duplicates to the loop, in both roles. `none` is that the connection is a
  -- duplicate.
  unfoldable pub establish : Established → PeerConnInfo → Option (Outcome (Unit {0})) × PeerConnInfo
  unfolding receive_list
  establish e s =
      elim (check_for_duplicate_connections e.remote_addr e.remote_host_name s.peer_conn) [
        | err d ↦ (none, s)
        | ok _ ↦ elim e.exchanged [
          | err d ↦ (some (err d), s)
          | ok lists ↦
              let s' : PeerConnInfo = record s {
                peer_sources = update_to_new_source_list lists.1 e.remote_addr s.peer_sources;
              } in
              let (r, s'') = receive_list lists.0 s' in
              elim r [
                | err d ↦ (some (err d), s'')
                | ok _ ↦
                    let shared = share (peers_update s''.peers.peer_list) s'' in
                    (
                      some (ok tt),
                      record shared {
                        peer_conn = insert e.remote_host_name e.connection shared.peer_conn;
                      },
                    )
              ]
        ]
      ]

  -- The tasks of streams that outlive the connection's loop.
  unfoldable pub late : Established → List Wakeup → PeerConnInfo → PeerConnInfo
  unfolding handle_request
  late e [] s = s
  late e (accepted request ∷ wakeups) s = late e wakeups (handle_request e.remote_addr request s).1
  late e (connection_lost error ∷ wakeups) s = late e wakeups s
  late e (notified ∷ wakeups) s = late e wakeups s
  late e (shutdown ∷ wakeups) s = late e wakeups s

  -- How a connection's loop ended, if it has: by the end of the connection or by the shutdown.
  abbrev pub Served : Type 0
  Served = Option (Option ConnectionError) × PeerConnInfo

  unfoldable pub serve : Established → List Wakeup → PeerConnInfo → Served
  unfolding handle_request late
  serve e [] s = (none, s)
  serve e (accepted request ∷ wakeups) s =
      serve e wakeups (handle_request e.remote_addr request s).1
  serve e (connection_lost error ∷ wakeups) s = (
    some (some error),
    late e wakeups (record s {
      peer_conn = remove e.remote_host_name s.peer_conn;
      peer_sources = remove e.remote_addr s.peer_sources;
    }),
  )
  serve e (notified ∷ wakeups) s = serve e wakeups (share (sources_update s.sources) s)
  serve e (shutdown ∷ wakeups) s = (some none, late e wakeups s)

  -- What the task returned, if it has ended.
  abbrev pub Handled : Type 0
  Handled = Option (Outcome (Unit {0})) × PeerConnInfo

  abbrev pub server_ends : Served → Handled
  server_ends (none, s) = (none, s)
  server_ends (some none, s) = (some (ok tt), s)
  server_ends (some (some application_closed), s) = (some (ok tt), s)
  server_ends (some (some (other_error e)), s) = (some (err e), s)

  -- The inputs are what `await` and the handshake give.
  unfoldable pub server_connection : Outcome Established → List Wakeup → PeerConnInfo → Handled
  unfolding establish serve
  server_connection (err d) wakeups s = (some (err d), s)
  server_connection (ok e) wakeups s =
      let (r, s') = establish e s in
      elim r [
        | none ↦ (some (ok tt), s)
        | some (err d) ↦ (some (err d), s')
        | some (ok _) ↦ server_ends (serve e wakeups s')
      ]
