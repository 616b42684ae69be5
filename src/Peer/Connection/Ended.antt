-- ===== src/Peer/Connection/Ended.antt =====
-- What is known of a peer while its connection lasts and when it has ended (src/peer.rs).
use giganto.Prelude.{
  ◌≡◌, ◌∙◌, ap, String, refl, true, false, none, some, List, [], ◌∷◌, ◌++◌, All, inl, inr,
}
use giganto.Bytes.{Bytes}
use giganto.Outcome.{Outcome, ok, err, Outcome-cases}
use giganto.Filter.{IpAddr}
use giganto.Store.Sorted.{equals_refl}
use giganto.Sources.{Map, insert, remove}
use giganto.Sources.Maps.{contains_key, remove-same, insert_lem}
use giganto.Sources.Connection.{ConnectionError}
use giganto.Peer.{PeerInfo, update_to_new_source_list, check_for_duplicate_connections}
use giganto.Peer.Update.{delivers_all, update_to_new_peer_list-peers}
use giganto.Peer.Connection.{
  PeerCode, update_peer_list, update_source_list, PeerConnInfo, Lists, Established, Wakeup,
  accepted, connection_lost, notified, shutdown, sources_update, peers_update, share, receive_list,
  handle_request, establish, late, serve,
}

there {ℓ} :
    {V : Type ℓ} (name : Bytes) (v : V) (m : Map V) → contains_key name (insert name v m) ≡ true
there name v m = rw (insert_lem name name v m, equals_refl name) refl

-- Streams and changes of the sources, which do not end a connection.
abbrev pub Lasting : Wakeup → Type 0
Lasting (accepted request) = Unit
Lasting notified = Unit
Lasting _ = ⊥

-- The node knows the connection and the sources of a peer.
abbrev pub Known : Established → PeerConnInfo → Type 0
Known e s =
    (contains_key e.remote_host_name s.peer_conn ≡ true)
    × (contains_key e.remote_addr s.peer_sources ≡ true)

module _ (local_address : IpAddr) (decode_peers : Bytes → Outcome (List PeerInfo))
    (decode_sources : Bytes → Outcome (List Bytes)) where
  handle_request-Known :
      (e : Established) (request : Outcome (PeerCode × Bytes)) (s : PeerConnInfo)
      → Known e s
      → Known e
          (handle_request delivers_all local_address decode_peers decode_sources e.remote_addr
            request s).1
  unfolding handle_request update_to_new_source_list
  handle_request-Known e (err d) s k = k
  handle_request-Known e (ok (update_peer_list, buf)) s k =
      elim (Outcome-cases (decode_peers buf)) [
        | inl (d, q) ↦ rw (handle_request, q) k
        | inr (peers, q) ↦ rw (handle_request, q) k
      ]
  handle_request-Known e (ok (update_source_list, buf)) s k =
      elim (Outcome-cases (decode_sources buf)) [
        | inl (d, q) ↦ rw (handle_request, q) k
        | inr (sources, q) ↦
            rw (handle_request, q) (k.0, there e.remote_addr sources s.peer_sources)
      ]

  pub serve-Known :
      (e : Established) (wakeups : List Wakeup) (s : PeerConnInfo)
      → All Lasting wakeups
      → Known e s
      → let (end, s') = serve delivers_all local_address decode_peers decode_sources e wakeups s in
        (end ≡ none) × Known e s'
  unfolding serve
  serve-Known e [] s h k = (refl, k)
  serve-Known e (accepted request ∷ wakeups) s h k =
      serve-Known e wakeups
        (handle_request delivers_all local_address decode_peers decode_sources e.remote_addr request
          s).1
        h.1 (handle_request-Known e request s k)
  serve-Known e (notified ∷ wakeups) s h k =
      serve-Known e wakeups (share (sources_update s.sources) s) h.1 k
  serve-Known e (connection_lost error ∷ wakeups) s h k = elim h.0 [ ]
  serve-Known e (shutdown ∷ wakeups) s h k = elim h.0 [ ]

  -- A request that does not bring the sources of the peer.
  abbrev NoSources : Wakeup → Type 0
  NoSources (accepted (ok (update_source_list, buf))) = (d : String) × (decode_sources buf ≡ err d)
  NoSources _ = Unit

  handle_request_conn :
      (e : Established) (request : Outcome (PeerCode × Bytes)) (s : PeerConnInfo)
      → (handle_request delivers_all local_address decode_peers decode_sources e.remote_addr request
          s).1.peer_conn
        ≡ s.peer_conn
  unfolding handle_request receive_list
  handle_request_conn e (err d) s = refl
  handle_request_conn e (ok (update_peer_list, buf)) s = elim (Outcome-cases (decode_peers buf)) [
    | inl (d, q) ↦ rw (handle_request, q) refl
    | inr (peers, q) ↦ rw (handle_request, q) refl
  ]
  handle_request_conn e (ok (update_source_list, buf)) s =
      elim (Outcome-cases (decode_sources buf)) [
        | inl (d, q) ↦ rw (handle_request, q) refl
        | inr (sources, q) ↦ rw (handle_request, q) refl
      ]

  handle_request_sources :
      (e : Established) (request : Outcome (PeerCode × Bytes)) (s : PeerConnInfo)
      → NoSources (accepted request)
      → (handle_request delivers_all local_address decode_peers decode_sources e.remote_addr request
          s).1.peer_sources
        ≡ s.peer_sources
  unfolding handle_request receive_list
  handle_request_sources e (err d) s n = refl
  handle_request_sources e (ok (update_peer_list, buf)) s n =
      elim (Outcome-cases (decode_peers buf)) [
        | inl (d, q) ↦ rw (handle_request, q) refl
        | inr (peers, q) ↦ rw (handle_request, q) refl
      ]
  handle_request_sources e (ok (update_source_list, buf)) s (d, q) = rw (handle_request, q) refl

  late_conn :
      (e : Established) (rest : List Wakeup) (s : PeerConnInfo)
      → (late delivers_all local_address decode_peers decode_sources e rest s).peer_conn
        ≡ s.peer_conn
  unfolding late
  late_conn e [] s = refl
  late_conn e (accepted request ∷ rest) s =
      late_conn e rest
        (handle_request delivers_all local_address decode_peers decode_sources e.remote_addr request
          s).1
      ∙ handle_request_conn e request s
  late_conn e (connection_lost error ∷ rest) s = late_conn e rest s
  late_conn e (notified ∷ rest) s = late_conn e rest s
  late_conn e (shutdown ∷ rest) s = late_conn e rest s

  late_sources :
      (e : Established) (rest : List Wakeup) (s : PeerConnInfo)
      → All NoSources rest
      → (late delivers_all local_address decode_peers decode_sources e rest s).peer_sources
        ≡ s.peer_sources
  unfolding late
  late_sources e [] s n = refl
  late_sources e (accepted request ∷ rest) s n =
      late_sources e rest
        (handle_request delivers_all local_address decode_peers decode_sources e.remote_addr request
          s).1
        n.1
      ∙ handle_request_sources e request s n.0
  late_sources e (connection_lost error ∷ rest) s n = late_sources e rest s n.1
  late_sources e (notified ∷ rest) s n = late_sources e rest s n.1
  late_sources e (shutdown ∷ rest) s n = late_sources e rest s n.1

  -- The connection is not known, and the sources of the peer are not, unless a request that is
  -- handled later brings them.
  abbrev pub Unknown : Established → List Wakeup → PeerConnInfo → Type 0
  Unknown e rest s =
      (contains_key e.remote_host_name s.peer_conn ≡ false)
      × (All NoSources rest → contains_key e.remote_addr s.peer_sources ≡ false)

  pub serve-Unknown :
      (e : Established) (wakeups rest : List Wakeup) (error : ConnectionError) (s : PeerConnInfo)
      → All Lasting wakeups
      → let (end, s') =
          serve delivers_all local_address decode_peers decode_sources e
            (wakeups ++ connection_lost error ∷ rest)
            s in
        (end ≡ some (some error)) × Unknown e rest s'
  unfolding serve
  serve-Unknown e [] rest error s h =
      let s' : PeerConnInfo = record s {
        peer_conn = remove e.remote_host_name s.peer_conn;
        peer_sources = remove e.remote_addr s.peer_sources;
      } in
      (
        refl,
        (
          ap (contains_key e.remote_host_name) (late_conn e rest s')
              ∙ remove-same e.remote_host_name s.peer_conn,
          λ n.
              ap (contains_key e.remote_addr) (late_sources e rest s' n)
              ∙ remove-same e.remote_addr s.peer_sources,
        ),
      )
  serve-Unknown e (accepted request ∷ wakeups) rest error s h =
      serve-Unknown e wakeups rest error
        (handle_request delivers_all local_address decode_peers decode_sources e.remote_addr request
          s).1
        h.1
  serve-Unknown e (notified ∷ wakeups) rest error s h =
      serve-Unknown e wakeups rest error (share (sources_update s.sources) s) h.1
  serve-Unknown e (connection_lost other ∷ wakeups) rest error s h = elim h.0 [ ]
  serve-Unknown e (shutdown ∷ wakeups) rest error s h = elim h.0 [ ]

  received_ok :
      (peers : List PeerInfo) (s : PeerConnInfo)
      → (receive_list delivers_all local_address decode_peers decode_sources peers s).0 ≡ ok tt
  unfolding receive_list
  received_ok peers s =
      (update_to_new_peer_list-peers local_address peers s.peers
        (record { ip = local_address; port = 0; host_name = [] })).0

  kept :
      (peers : List PeerInfo) (s : PeerConnInfo)
      → (receive_list delivers_all local_address decode_peers decode_sources peers s).1.peer_sources
        ≡ s.peer_sources
  unfolding receive_list
  kept peers s = refl

  -- The state that a successful exchange leads to.
  abbrev pub established : Established → Lists → PeerConnInfo → PeerConnInfo
  established e lists s =
      let s' : PeerConnInfo = record s {
        peer_sources = update_to_new_source_list lists.1 e.remote_addr s.peer_sources;
      } in
      let s'' =
        (receive_list delivers_all local_address decode_peers decode_sources lists.0 s').1 in
      let shared = share (peers_update s''.peers.peer_list) s'' in
      record shared { peer_conn = insert e.remote_host_name e.connection shared.peer_conn }

  pub establish_lem :
      (e : Established) (lists : Lists) (s : PeerConnInfo)
      → contains_key e.remote_host_name s.peer_conn ≡ false
      → e.exchanged ≡ ok lists
      → establish delivers_all local_address decode_peers decode_sources e s
        ≡ (some (ok tt), established e lists s)
  unfolding establish check_for_duplicate_connections
  establish_lem e lists s new x =
      let s' : PeerConnInfo = record s {
        peer_sources = update_to_new_source_list lists.1 e.remote_addr s.peer_sources;
      } in
      rw (establish, check_for_duplicate_connections, new, x, received_ok lists.0 s') refl

  pub established-Known :
      (e : Established) (lists : Lists) (s : PeerConnInfo) → Known e (established e lists s)
  unfolding receive_list update_to_new_source_list
  established-Known e lists s =
      (there e.remote_host_name e.connection _, there e.remote_addr lists.1 s.peer_sources)
