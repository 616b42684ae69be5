-- ===== src/Peer/Run/Started.antt =====
-- Which peers a node tries to connect to (`Peer::run` and `update_to_new_peer_list` of src/peer.rs).
use mathlib.Core.List.{append_assoc, append-nil}
use giganto.Prelude.{
  ◌≡◌, refl, sym, ap, ◌∙◌, ◌+◌, Bool, true, false, ◌&&◌, ◌||◌, not, none, List, [], ◌∷◌, ◌++◌, any,
  Bool-cases, inl, inr, arith,
}
use giganto.Outcome.{Outcome-cases}
use giganto.Filter.{IpAddr, addr_eq}
use giganto.Peer.{
  PeerInfo, peer_eq, contains_peer, PeerState, receive_peers, update_to_new_peer_list,
}
use giganto.Peer.Update.{delivers_all}
use giganto.Peer.Run.{Event, accepted, shutdown, received, Tasks, run_loop, client_run, run}

any-append :
    (p : PeerInfo → Bool) (xs ys : List PeerInfo) → any p (xs ++ ys) ≡ (any p xs || any p ys)
any-append p [] ys = refl
any-append p (x ∷ xs) ys = ground (arith, any-append p xs ys)

or_swap : (x l m : Bool) → l ≡ m → (x || l) ≡ (m || (x || false))
or_swap x l m h = ground arith

-- The list holds the peers of the beginning and those that were sent.
abbrev Matches : List PeerInfo → PeerState → Type 0
Matches peers s = (q : PeerInfo) → contains_peer s.peer_list q ≡ contains_peer (peers ++ s.sent) q

-- The lists that were received one after the other.
abbrev pub receive_all : IpAddr → List (List PeerInfo) → PeerState → PeerState
receive_all local_address [] s = s
receive_all local_address (peers ∷ lists) s =
    receive_all local_address lists (update_to_new_peer_list delivers_all local_address peers s).1

-- The peers that the events take from the channel.
abbrev pub taken : List Event → List PeerInfo
taken [] = []
taken (received peer ∷ events) = peer ∷ taken events
taken (accepted ∷ events) = taken events
taken (shutdown ∷ events) = []

module _ (local_address : IpAddr) (known : List PeerInfo) where
  receive_peers-Matches :
      (peers : List PeerInfo) (is_change : Bool) (s : PeerState)
      → Matches known s
      → Matches known (receive_peers delivers_all local_address peers is_change s).1
  unfolding receive_peers
  receive_peers-Matches [] is_change s h = h
  receive_peers-Matches (peer ∷ peers) is_change s h =
      elim (Bool-cases
        (not (addr_eq local_address peer.ip) && not (contains_peer s.peer_list peer))) [
          | inl new ↦
              rw (receive_peers, new)
                (receive_peers-Matches peers true
                  (record s { peer_list = peer ∷ s.peer_list; sent = s.sent ++ peer ∷ [] })
                  (λ q.
                    let a = any-append (λ p. peer_eq p q) (known ++ s.sent) (peer ∷ []) in
                    let b = ap (any (λ p. peer_eq p q)) (append_assoc known s.sent (peer ∷ [])) in
                    let m = h q in or_swap (peer_eq peer q) _ _ m ∙ sym (sym b ∙ a)))
          | inr old ↦ rw (receive_peers, old) (receive_peers-Matches peers is_change s h)
        ]

  update-Matches :
      (peers : List PeerInfo) (s : PeerState)
      → Matches known s
      → Matches known (update_to_new_peer_list delivers_all local_address peers s).1
  unfolding update_to_new_peer_list
  update-Matches peers s h =
      let m = receive_peers-Matches peers false s h in
      elim (Outcome-cases (receive_peers delivers_all local_address peers false s).0) [
        | inl (e, q) ↦ rw (update_to_new_peer_list, q) m
        | inr (is_change, q) ↦ elim (Bool-cases is_change) [
          | inl c ↦ rw (update_to_new_peer_list, q, c) m
          | inr c ↦ rw (update_to_new_peer_list, q, c) m
        ]
      ]

  receive_all-Matches :
      (lists : List (List PeerInfo)) (s : PeerState)
      → Matches known s
      → Matches known (receive_all local_address lists s)
  receive_all-Matches [] s h = h
  receive_all-Matches (peers ∷ lists) s h =
      receive_all-Matches lists (update_to_new_peer_list delivers_all local_address peers s).1
        (update-Matches peers s h)

client_run_lem : (peers : List PeerInfo) → client_run peers ≡ peers
unfolding client_run
client_run_lem [] = refl
client_run_lem (p ∷ peers) = ap (λ l. p ∷ l) (client_run_lem peers)

run_loop-clients :
    (events : List Event) (s : Tasks) → (run_loop events s).clients ≡ s.clients ++ taken events
unfolding run_loop
run_loop-clients [] s = sym (append-nil s.clients)
run_loop-clients (accepted ∷ events) s =
    run_loop-clients events (record s { servers = s.servers + 1 })
run_loop-clients (received peer ∷ events) s =
    run_loop-clients events (record s { clients = s.clients ++ peer ∷ [] })
    ∙ append_assoc s.clients (peer ∷ []) (taken events)
run_loop-clients (shutdown ∷ events) s = sym (append-nil s.clients)

-- The peers with which a node starts.
abbrev pub start : List PeerInfo → PeerState
start known = record { peer_list = known; sent = []; written = none }

-- When a node, whose configuration can be read, has taken from the channel all the peers that were
-- sent to it while any lists were received, the peers for which it has started a
-- connecting task are exactly those in its list: those that it knew at the start and those that
-- were added. The channel takes every peer.
pub run-clients :
    (local_address : IpAddr) (known : List PeerInfo) (lists : List (List PeerInfo))
    (events : List Event) (q : PeerInfo)
    → taken events ≡ (receive_all local_address lists (start known)).sent
    → contains_peer (run true known events).clients q
      ≡ contains_peer (receive_all local_address lists (start known)).peer_list q
unfolding run
run-clients local_address known lists events q h =
    let s = receive_all local_address lists (start known) in
    let m =
      receive_all-Matches local_address known lists (start known)
        (λ p. ap (λ l. contains_peer l p) (sym (append-nil known))) q in
    ap (λ l. contains_peer l q)
      (run_loop-clients events (record { clients = client_run known; servers = 0; result = none })
        ∙ ap (λ l. l ++ taken events) (client_run_lem known)
        ∙ ap (λ l. known ++ l) h)
    ∙ sym m
