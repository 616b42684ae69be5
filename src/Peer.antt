-- ===== src/Peer.antt =====
-- What a node learns from its peers (src/peer.rs): `update_to_new_peer_list`,
-- `update_to_new_source_list` and the check of `check_for_duplicate_connections`. The sets are
-- lists in the order in which they are read; the channel to the connecting task is a parameter.
pub mod Update
pub mod Connection
pub mod Run
use giganto.Prelude.{
  ℕ, Bool, true, false, ◌&&◌, ◌||◌, not, Option, none, some, List, [], ◌∷◌, ◌++◌, any, ◌==◌,
  if◌then◌else◌,
}
use giganto.Bytes.{Bytes}
use giganto.Outcome.{Outcome, ok, err}
use giganto.Filter.{IpAddr, addr_eq}
use giganto.Store.{equals}
use giganto.Sources.{Map, insert}
use giganto.Sources.Maps.{contains_key}

pub record PeerInfo : Type 0 where
  pub ip : IpAddr
  pub port : ℕ
  pub host_name : Bytes

-- `PartialEq`
abbrev pub peer_eq : PeerInfo → PeerInfo → Bool
peer_eq a b = addr_eq a.ip b.ip && (a.port == b.port) && equals a.host_name b.host_name

abbrev pub contains_peer : List PeerInfo → PeerInfo → Bool
contains_peer peers peer = any (λ p. peer_eq p peer) peers

-- The node's peers, those handed to the connecting task, and the list last written to the
-- configuration.
pub record PeerState : Type 0 where
  pub peer_list : List PeerInfo
  pub sent : List PeerInfo
  pub written : Option (List PeerInfo)

module _ (delivers : List PeerInfo → Bool) (local_address : IpAddr) where
  -- The loop, and whether it changed the list; `sender.send(..).await?` leaves the function.
  unfoldable pub receive_peers : List PeerInfo → Bool → PeerState → Outcome Bool × PeerState
  receive_peers [] is_change s = (ok is_change, s)
  receive_peers (peer ∷ peers) is_change s =
      let passed_over = receive_peers peers is_change s in
      let added = record s { peer_list = peer ∷ s.peer_list } in
      let later = receive_peers peers true (record added { sent = s.sent ++ peer ∷ [] }) in
      if not (addr_eq local_address peer.ip) && not (contains_peer s.peer_list peer)
      then (if delivers s.sent then later else (err "channel closed", added))
      else passed_over

  -- That the configuration cannot be written is only logged; `written` is what is to be written.
  unfoldable pub update_to_new_peer_list :
      List PeerInfo → PeerState → Outcome (Unit {0}) × PeerState
  unfolding receive_peers
  update_to_new_peer_list recv_peer_list s =
      let (result, s') = receive_peers recv_peer_list false s in
      elim result [
        | err e ↦ (err e, s')
        | ok is_change ↦
            (ok tt, if is_change then record s' { written = some s'.peer_list } else s')
      ]

-- The names of the sources of each peer, by the address of the peer.
unfoldable pub update_to_new_source_list : List Bytes → Bytes → Map (List Bytes) → Map (List Bytes)
unfolding insert
update_to_new_source_list recv_source_list remote_addr peer_sources =
    insert remote_addr recv_source_list peer_sources

-- A second connection of one host is closed.
unfoldable pub check_for_duplicate_connections {ℓ} :
    {Connection : Type ℓ} → Bytes → Bytes → Map Connection → Outcome (Bytes × Bytes)
check_for_duplicate_connections remote_addr remote_host_name peer_conn =
    if contains_key remote_host_name peer_conn
    then err "Duplicated connection close"
    else ok (remote_addr, remote_host_name)
