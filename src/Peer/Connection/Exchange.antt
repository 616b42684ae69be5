-- ===== src/Peer/Connection/Exchange.antt =====
-- What two nodes know of the peers after their exchange (`client_connection`, `server_connection` and
-- the messages of src/peer.rs).
use giganto.Prelude.{
  ◌≡◌, refl, ◌∙◌, true, false, ◌||◌, List, ◌∷◌, ℕ, length, length-reverse, reverse, arith, ◌==◌,
  ==_of_eq,
}
use mathlib.Core.List.{reverse-reverse}
use giganto.Bytes.{Bytes, to_be, of_be}
use giganto.Bytes.Endian.{length-to_be, of_be-to_be}
use giganto.Outcome.{Outcome, ok, ◌>>=◌}
use giganto.Peer.{PeerInfo, peer_eq, contains_peer, PeerState, update_to_new_peer_list}
use giganto.Peer.Update.{delivers_all, foreign, update_to_new_peer_list-peers, peer_eq_refl}
use giganto.Peer.Connection.{
  PeerCode, update_peer_list, update_source_list, peer_code, code_number, send_peer_data,
  receive_peer_data,
}

-- The peers that the client sends: its own and itself.
abbrev pub with_self : PeerInfo → List PeerInfo → List PeerInfo
with_self self peers = self ∷ peers

-- The peers of the two nodes after the exchange: each has received the list of the other.
abbrev pub client_after : PeerInfo → PeerState → PeerState → PeerState
client_after client at_client at_server =
    (update_to_new_peer_list delivers_all client.ip at_server.peer_list at_client).1

abbrev pub server_after : PeerInfo → PeerInfo → PeerState → PeerState → PeerState
server_after client server at_client at_server =
    (update_to_new_peer_list delivers_all server.ip (with_self client at_client.peer_list)
      at_server).1

other_peer : (p q : PeerInfo) → foreign p.ip q ≡ true → peer_eq p q ≡ false
other_peer p q h = ground arith

-- After the exchange the two nodes know the same peers, apart from those with the address of one of
-- them: exactly the peers that one of them knew before. The server also knows the client, unless
-- that has its own address. The channels take every peer.
pub exchange_agrees :
    (client server : PeerInfo) (at_client at_server : PeerState)
    → ((q : PeerInfo)
        → foreign client.ip q ≡ true
        → foreign server.ip q ≡ true
        → (contains_peer (client_after client at_client at_server).peer_list q
            ≡ (contains_peer at_client.peer_list q || contains_peer at_server.peer_list q))
          × (contains_peer (server_after client server at_client at_server).peer_list q
              ≡ (contains_peer at_client.peer_list q || contains_peer at_server.peer_list q)))
      × (foreign server.ip client ≡ true
          → contains_peer (server_after client server at_client at_server).peer_list client ≡ true)
exchange_agrees client server at_client at_server = (
  λ q c s.
      let a = (update_to_new_peer_list-peers client.ip at_server.peer_list at_client q).1 in
      let b =
        (update_to_new_peer_list-peers server.ip (with_self client at_client.peer_list) at_server
          q).1 in
      let o = other_peer client q c in (ground arith, ground arith),
  λ f.
      let b =
        (update_to_new_peer_list-peers server.ip (with_self client at_client.peer_list) at_server
          client).1 in
      let r = peer_eq_refl client in ground arith,
)

code_of_bytes : (code : PeerCode) → peer_code (of_be (to_be 4 (code_number code))) ≡ ok code
code_of_bytes update_peer_list = rw (of_be-to_be 4 0 (omega arith)) refl
code_of_bytes update_source_list = rw (of_be-to_be 4 1 (omega arith)) refl

four_bytes : (n : ℕ) → (length (reverse (to_be 4 n)) == 4) ≡ true
four_bytes n = ==_of_eq _ 4 (length-reverse (to_be 4 n) ∙ length-to_be 4 n)

-- What one node sends with a code, the other reads as that code and the serialized data, for both
-- codes and whatever the data are.
pub receive_peer_data-send_peer_data :
    {A : Type 0} (serialize : A → Outcome Bytes) (code : PeerCode) (update_data : A) (buf : Bytes)
    → serialize update_data ≡ ok buf
    → (send_peer_data serialize code update_data >>= receive_peer_data) ≡ ok (code, buf)
unfolding send_peer_data receive_peer_data
receive_peer_data-send_peer_data serialize code update_data buf e =
    rw
      (
        e,
        four_bytes (code_number code),
        reverse-reverse (to_be 4 (code_number code)),
        code_of_bytes code,
      )
      refl
