-- ===== src/Peer/Connection/Client.antt =====
-- `client_connection` of src/peer.rs: a node that connects to another, and connects again.
use giganto.Prelude.{ℕ, ◌+◌, Bool, none, some, List, [], ◌∷◌}
use giganto.Bytes.{Bytes}
use giganto.Outcome.{Outcome, ok, err}
use giganto.Filter.{IpAddr}
use giganto.Sources.Connection.{application_closed, other_error}
use giganto.Peer.{PeerInfo}
use giganto.Peer.Connection.{PeerConnInfo, Established, Wakeup, establish, serve, Handled}

-- Why `connect` fails: a `ConnectionError` of the four that are waited for, another one, or an error
-- of another type.
pub data Failure : Type 0 where
  connection_closed connection_application_closed reset timed_out : Failure
  other_connection_error not_a_connection_error : Failure

-- An attempt to connect: a failure, or a connection with what it wakes up for.
pub data Attempt : Type 0 where
  failed : Failure → Attempt
  connected : Established → List Wakeup → Attempt

module _ (delivers : List PeerInfo → Bool) (local_address : IpAddr)
    (decode_peers : Bytes → Outcome (List PeerInfo))
    (decode_sources : Bytes → Outcome (List Bytes)) where
  -- What the task returned, if it has ended, and how often it has slept.
  unfoldable pub client_connection :
      List Attempt
      → ℕ
      → PeerConnInfo
      → Handled delivers local_address decode_peers decode_sources × ℕ
  unfolding establish serve
  client_connection [] waits s = ((none, s), waits)
  client_connection (failed connection_closed ∷ attempts) waits s =
      client_connection attempts (waits + 1) s
  client_connection (failed connection_application_closed ∷ attempts) waits s =
      client_connection attempts (waits + 1) s
  client_connection (failed reset ∷ attempts) waits s = client_connection attempts (waits + 1) s
  client_connection (failed timed_out ∷ attempts) waits s = client_connection attempts (waits + 1) s
  client_connection (failed other_connection_error ∷ attempts) waits s =
      client_connection attempts waits s
  client_connection (failed not_a_connection_error ∷ attempts) waits s = ((some (ok tt), s), waits)
  client_connection (connected e wakeups ∷ attempts) waits s =
      let (r, s') = establish delivers local_address decode_peers decode_sources e s in
      let (end, s'') = serve delivers local_address decode_peers decode_sources e wakeups s' in
      elim r [
        | none ↦ ((some (ok tt), s), waits)
        | some (err d) ↦ ((some (err d), s'), waits)
        | some (ok _) ↦ elim end [
          | none ↦ ((none, s''), waits)
          | some none ↦ ((some (ok tt), s''), waits)
          | some (some application_closed) ↦ ((some (ok tt), s''), waits)
          | some (some (other_error d)) ↦ client_connection attempts waits s''
        ]
      ]
