-- ===== src/Peer/Update.antt =====
-- The peers after an update (src/peer.rs).
use giganto.Prelude.{
  or_later, ◌≡◌, refl, sym, ap, subst, ◌∙◌, Bool, true, false, ◌&&◌, ◌||◌, not, List, [], ◌∷◌, ◌++◌,
  ◌==◌, ==_iff, ==_of_eq, Bool-cases, inl, inr, arith, All,
}
use giganto.Outcome.{ok}
use giganto.Filter.{IpAddr, v4, v6, addr_eq}
use giganto.Store.{equals}
use giganto.Store.Sorted.{equals_refl, equals→eq}
use giganto.Peer.{
  PeerInfo, peer_eq, contains_peer, PeerState, receive_peers, update_to_new_peer_list,
}

addr_eq_refl : (a : IpAddr) → addr_eq a a ≡ true
addr_eq_refl (v4 n) = ground arith
addr_eq_refl (v6 n) = ground arith

addr_eq→eq : (a b : IpAddr) → addr_eq a b ≡ true → a ≡ b
addr_eq→eq (v4 a) (v4 b) h = ground arith
addr_eq→eq (v4 a) (v6 b) h = ground arith
addr_eq→eq (v6 a) (v4 b) h = ground arith
addr_eq→eq (v6 a) (v6 b) h = ground arith

pub peer_eq_refl : (p : PeerInfo) → peer_eq p p ≡ true
peer_eq_refl p = rw (addr_eq_refl p.ip, ==_of_eq p.port p.port refl, equals_refl p.host_name) refl

and_parts : (a b : Bool) → (a && b) ≡ true → (a ≡ true) × (b ≡ true)
and_parts a b h = ground arith

PeerInfo_eq : (p q : PeerInfo) → p.ip ≡ q.ip → p.port ≡ q.port → p.host_name ≡ q.host_name → p ≡ q
PeerInfo_eq p q a b c = cc

peer_eq→eq : (p q : PeerInfo) → peer_eq p q ≡ true → p ≡ q
peer_eq→eq p q h =
    let (a, rest) =
      and_parts (addr_eq p.ip q.ip && (p.port == q.port)) (equals p.host_name q.host_name) h in
    let (x, y) = and_parts (addr_eq p.ip q.ip) (p.port == q.port) a in
    PeerInfo_eq p q (addr_eq→eq p.ip q.ip x) ((==_iff p.port q.port).0 y)
      (equals→eq p.host_name q.host_name rest)

-- The channel takes every peer.
abbrev pub delivers_all : List PeerInfo → Bool
delivers_all sent = true

-- A received peer is to be connected to unless it has the node's own address.
abbrev pub foreign : IpAddr → PeerInfo → Bool
foreign local_address peer = not (addr_eq local_address peer.ip)

or_false : (b : Bool) → b ≡ (b || false)
or_false b = ground arith

module _ (local_address : IpAddr) where
  receive_peers_lem :
      (recv : List PeerInfo) (c : Bool) (s : PeerState) (q : PeerInfo)
      → contains_peer (receive_peers delivers_all local_address recv c s).1.peer_list q
        ≡ (contains_peer s.peer_list q || (contains_peer recv q && foreign local_address q))
  unfolding receive_peers
  receive_peers_lem [] c s q = or_false (contains_peer s.peer_list q)
  receive_peers_lem (p ∷ recv) c s q =
      let added = record s { peer_list = p ∷ s.peer_list; sent = s.sent ++ p ∷ [] } in
      let one = receive_peers_lem recv true added q in
      let two = receive_peers_lem recv c s q in
      elim (Bool-cases (peer_eq p q)) [
        | inl e ↦
            (let same = peer_eq→eq p q e in
              let f = ap (λ r. addr_eq local_address r.ip) same in
              let m = ap (contains_peer s.peer_list) same in ground arith)
        | inr e ↦ ground arith
      ]

  receive_peers_ok :
      (recv : List PeerInfo) (c : Bool) (s : PeerState)
      → (b : Bool) × ((receive_peers delivers_all local_address recv c s).0 ≡ ok b)
  unfolding receive_peers
  receive_peers_ok [] c s = (c, refl)
  receive_peers_ok (p ∷ recv) c s =
      let added = record s { peer_list = p ∷ s.peer_list; sent = s.sent ++ p ∷ [] } in
      let one = receive_peers_ok recv true added in
      let two = receive_peers_ok recv c s in
      elim (Bool-cases (not (addr_eq local_address p.ip) && not (contains_peer s.peer_list p))) [
        | inl e ↦ (one.0, ground arith)
        | inr e ↦ (two.0, ground arith)
      ]

  update_list :
      (recv : List PeerInfo) (s : PeerState)
      → (update_to_new_peer_list delivers_all local_address recv s).1.peer_list
        ≡ (receive_peers delivers_all local_address recv false s).1.peer_list
  unfolding update_to_new_peer_list
  update_list recv s = ground arith

  -- Where the channel takes every peer, an update ends well, and afterwards the peers are those
  -- before it and the received ones that do not have the node's own address.
  pub update_to_new_peer_list-peers :
      (recv : List PeerInfo) (s : PeerState) (q : PeerInfo)
      → let (result, s') = update_to_new_peer_list delivers_all local_address recv s in
        (result ≡ ok tt)
        × (contains_peer s'.peer_list q
            ≡ (contains_peer s.peer_list q || (contains_peer recv q && foreign local_address q)))
  update_to_new_peer_list-peers recv s q =
      let (b, e) = receive_peers_ok recv false s in
      (
        unfold update_to_new_peer_list in ground arith,
        ap (λ l. contains_peer l q) (update_list recv s) ∙ receive_peers_lem recv false s q,
      )

  -- A list of peers that are known or have the node's own address changes nothing.
  receive_peers_known :
      (recv : List PeerInfo) (c : Bool) (s : PeerState)
      → All (λ p. (contains_peer s.peer_list p || not (foreign local_address p)) ≡ true) recv
      → receive_peers delivers_all local_address recv c s ≡ (ok c, s)
  unfolding receive_peers
  receive_peers_known [] c s h = refl
  receive_peers_known (p ∷ recv) c s h =
      let k = h.0 in let rest = receive_peers_known recv c s h.1 in ground arith

  received_within :
      (recv all : List PeerInfo) (s : PeerState)
      → ((q : PeerInfo) → contains_peer recv q ≡ true → contains_peer all q ≡ true)
      → All
          (λ p.
            (contains_peer (receive_peers delivers_all local_address all false s).1.peer_list p
              || not (foreign local_address p))
            ≡ true)
          recv
  received_within [] all s f = tt
  received_within (p ∷ recv) all s f =
      let e = receive_peers_lem all false s p in
      let r = peer_eq_refl p in
      let k : (peer_eq p p || contains_peer recv p) ≡ true = ground arith in
      let here = f p k in
      (
        ground arith,
        received_within recv all s (λ q h. f q (or_later (peer_eq p q) (contains_peer recv q) h)),
      )

  -- Where the channel takes every peer, the same list received a second time changes nothing: no
  -- peer is handed on and nothing is written again.
  pub update_to_new_peer_list-again :
      (recv : List PeerInfo) (s : PeerState)
      → let s' = (update_to_new_peer_list delivers_all local_address recv s).1 in
        update_to_new_peer_list delivers_all local_address recv s' ≡ (ok tt, s')
  update_to_new_peer_list-again recv s =
      let s' = (update_to_new_peer_list delivers_all local_address recv s).1 in
      let w = received_within recv recv s (λ q h. h) in
      let k = receive_peers_known recv false s' (
        subst (λ l. All (λ p. (contains_peer l p || not (foreign local_address p)) ≡ true) recv)
          (sym (update_list recv s)) w) in
      unfold update_to_new_peer_list in ground arith
