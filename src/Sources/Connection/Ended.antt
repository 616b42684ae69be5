-- ===== src/Sources/Connection/Ended.antt =====
-- What a connection, from its handshake to its end, makes of the connected sources
-- (`handle_connection` and `check_sources_conn` of src/ingest.rs).
use giganto.Prelude.{
  ◌≡◌, refl, ap, ◌∙◌, ℕ, zero, suc, ◌+◌, Bool, none, some, List, [], ◌∷◌, ◌++◌, arith,
  if◌then◌else◌,
}
use giganto.Bytes.{Bytes}
use giganto.Int64.{ℤ}
use giganto.Outcome.{Outcome, ok, err}
use giganto.Filter.{contains}
use giganto.Sources.{Map, insert, connected, disconnected, Event, source_info}
use giganto.Sources.Connection.{
  Incoming, identified, ConnectionError, application_closed, other_error, Wakeup, accepted,
  connection_lost, Handled, reproduce, send, serve, handle_connection,
}

-- A number of streams, and what follows.
abbrev pub after_streams : ℕ → List Wakeup → List Wakeup
after_streams zero rest = rest
after_streams (suc n) rest = accepted ∷ after_streams n rest

-- What the end of a connection returns.
abbrev pub returned : ConnectionError → Outcome (Unit {0})
returned application_closed = ok tt
returned (other_error e) = err e

more_none : (k : ℕ) → k ≡ k + 0
more_none k = omega arith

none_more : (k : ℕ) → 0 + k ≡ k
none_more k = omega arith

more_one : (k n : ℕ) → k + 1 + n ≡ k + suc n
more_one k n = omega arith

module _ (sends : Event → Outcome (Unit {0})) (all_sent : (e : Event) → sends e ≡ ok tt) where
  serve-after_streams :
      (source : Bytes) (rep : Bool) (n : ℕ) (rest : List Wakeup) (h : Handled)
      → serve sends source rep (after_streams n rest) h
        ≡ serve sends source rep rest (record h { streams = h.streams + n })
  unfolding serve
  serve-after_streams source rep zero rest h =
      ap (λ k. serve sends source rep rest (record h { streams = k })) (more_none h.streams)
  serve-after_streams source rep (suc n) rest h =
      serve-after_streams source rep n rest (record h { streams = h.streams + 1 })
      ∙ ap (λ k. serve sends source rep rest (record h { streams = k })) (more_one h.streams n)

  sent_lem : (e : Event) (h : Handled) → send sends e h ≡ record h { sent = h.sent ++ e ∷ [] }
  unfolding send
  sent_lem e h = rw (send, all_sent e) refl

  serve-lost :
      (source : Bytes) (rep : Bool) (error : ConnectionError) (later : ℤ) (rest : List Wakeup)
      (h : Handled)
      → serve sends source rep (connection_lost error later ∷ rest) h ≡ record h {
        sent = h.sent ++ source_info source later disconnected rep ∷ [];
        result = some (returned error);
      }
  unfolding serve
  serve-lost source rep application_closed later rest h =
      rw (serve, sent_lem (source_info source later disconnected rep) h) refl
  serve-lost source rep (other_error e) later rest h =
      rw (serve, sent_lem (source_info source later disconnected rep) h) refl

  -- The senders of packet captures while the connection is there.
  abbrev pub with_sender : Bool → Bytes → ℕ → Map ℕ → Map ℕ
  with_sender rep source sender senders = if rep then senders else insert source sender senders

  module _ (incoming : Incoming) (agent source : Bytes) (now : ℤ)
      (known : identified incoming ≡ ok (agent, source)) (n : ℕ) (senders : Map ℕ) where
    abbrev pub running : Handled
    running = record {
      sent = source_info source now connected (contains agent reproduce) ∷ [];
      packet_sources = with_sender (contains agent reproduce) source incoming.packet_sender senders;
      streams = n;
      result = none;
    }

    abbrev opened : Handled
    opened = record running { sent = []; streams = 0 }

    abbrev greeted : Handled
    greeted = record running { streams = 0 }

    greeted-running :
        (rest : List Wakeup)
        → serve sends source (contains agent reproduce) (after_streams n rest) greeted
          ≡ serve sends source (contains agent reproduce) rest running
    greeted-running rest =
        serve-after_streams source (contains agent reproduce) n rest greeted
        ∙ ap
            (λ k.
              serve sends source (contains agent reproduce) rest (record running { streams = k }))
            (none_more n)

    pub handle_connection-running :
        handle_connection sends incoming now (after_streams n []) senders ≡ running
    unfolding handle_connection
    handle_connection-running =
        rw (handle_connection, known)
          (rw (sent_lem (source_info source now connected (contains agent reproduce)) opened)
            (greeted-running []))

    pub handle_connection-ended :
        (error : ConnectionError) (later : ℤ) (rest : List Wakeup)
        → handle_connection sends incoming now
            (after_streams n (connection_lost error later ∷ rest))
            senders
          ≡ record running {
            sent =
                source_info source now connected (contains agent reproduce)
                ∷ source_info source later disconnected (contains agent reproduce)
                ∷ [];
            result = some (returned error);
          }
    unfolding handle_connection
    handle_connection-ended error later rest =
        rw (handle_connection, known)
          (rw (sent_lem (source_info source now connected (contains agent reproduce)) opened) (
            greeted-running (connection_lost error later ∷ rest)
            ∙ serve-lost source (contains agent reproduce) error later rest running))
