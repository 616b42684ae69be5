-- ===== src/Peer/Connection/Retry.antt =====
-- How often a node tries to connect (`client_connection` of src/peer.rs).
use giganto.Prelude.{◌≡◌, ap, ◌∙◌, ℕ, suc, ◌+◌, Bool, List, [], ◌∷◌, arith}
use giganto.Bytes.{Bytes}
use giganto.Outcome.{Outcome}
use giganto.Filter.{IpAddr}
use giganto.Peer.{PeerInfo}
use giganto.Peer.Connection.{PeerConnInfo, Handled}
use giganto.Peer.Connection.Client.{
  Failure, connection_closed, connection_application_closed, reset, timed_out,
  other_connection_error, not_a_connection_error, Attempt, failed, client_connection,
}

-- Attempts that fail, and what follows.
abbrev pub failing : List Failure → List Attempt → List Attempt
failing [] attempts = attempts
failing (f ∷ failures) attempts = failed f ∷ failing failures attempts

-- The failures that are waited for.
abbrev pub waited : List Failure → ℕ
waited [] = 0
waited (other_connection_error ∷ failures) = waited failures
waited (not_a_connection_error ∷ failures) = waited failures
waited (_ ∷ failures) = suc (waited failures)

abbrev pub AreConnectionErrors : List Failure → Type 0
AreConnectionErrors [] = Unit
AreConnectionErrors (not_a_connection_error ∷ failures) = ⊥
AreConnectionErrors (_ ∷ failures) = AreConnectionErrors failures

one_more : (n m : ℕ) → n + 1 + m ≡ n + suc m
one_more n m = omega arith

module _ (delivers : List PeerInfo → Bool) (local_address : IpAddr)
    (decode_peers : Bytes → Outcome (List PeerInfo))
    (decode_sources : Bytes → Outcome (List Bytes)) where
  abbrev again :
      List Attempt
      → PeerConnInfo
      → ℕ
      → Handled delivers local_address decode_peers decode_sources × ℕ
  again attempts s waits =
      client_connection delivers local_address decode_peers decode_sources attempts waits s

  -- After any number of attempts that fail with a `ConnectionError` the node tries again, with all as
  -- it was; it has slept as often as the error was one of the four that are waited for, so with
  -- the others it tries again at once, without end.
  pub client_connection-retries :
      (failures : List Failure) (attempts : List Attempt) (waits : ℕ) (s : PeerConnInfo)
      → AreConnectionErrors failures
      → client_connection delivers local_address decode_peers decode_sources
          (failing failures attempts)
          waits
          s
        ≡ client_connection delivers local_address decode_peers decode_sources attempts
            (waits + waited failures)
            s
  unfolding client_connection
  client_connection-retries [] attempts waits s h = ap (again attempts s) (omega arith)
  client_connection-retries (connection_closed ∷ failures) attempts waits s h =
      client_connection-retries failures attempts (waits + 1) s h
      ∙ ap (again attempts s) (one_more waits (waited failures))
  client_connection-retries (connection_application_closed ∷ failures) attempts waits s h =
      client_connection-retries failures attempts (waits + 1) s h
      ∙ ap (again attempts s) (one_more waits (waited failures))
  client_connection-retries (reset ∷ failures) attempts waits s h =
      client_connection-retries failures attempts (waits + 1) s h
      ∙ ap (again attempts s) (one_more waits (waited failures))
  client_connection-retries (timed_out ∷ failures) attempts waits s h =
      client_connection-retries failures attempts (waits + 1) s h
      ∙ ap (again attempts s) (one_more waits (waited failures))
  client_connection-retries (other_connection_error ∷ failures) attempts waits s h =
      client_connection-retries failures attempts waits s h
  client_connection-retries (not_a_connection_error ∷ failures) attempts waits s h = elim h [ ]
