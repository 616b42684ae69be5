-- ===== src/Tests/Sensors.antt =====
-- Connections of a sensor and of a reproducing agent (src/ingest.rs).
use giganto.Prelude.{◌≡◌, refl, true, false, [], ◌∷◌}
use giganto.Bytes.{Bytes, cmp}
use giganto.Int64.{pos}
use giganto.Outcome.{Outcome, ok}
use giganto.Filter.{contains}
use giganto.Sources.{SourceState, Event, source_info, connected, disconnected, check_sources_conn}
use giganto.Sources.Maps.{contains_key}
use giganto.Sources.Recorded.{takes}
use giganto.Sources.Connection.{Incoming, reproduce, other_error, handle_connection}
use giganto.Sources.Connection.Observed.{lost_state, handle_connection-sources}
use giganto.Tests.{source}

abbrev agent : Bytes
agent = 112 ∷ 105 ∷ []

abbrev sensor : Bytes → Incoming
sensor name = record {
  connection = ok tt;
  handshake = ok tt;
  finish = ok tt;
  certificate = ok (name, source);
  packet_sender = 3;
}

abbrev takes_all : Event → Outcome (Unit {0})
takes_all e = ok tt

abbrev nobody : SourceState
nobody = record { source_store = []; sources = []; packet_sources = []; notified = 0 }

-- Another source comes and goes meanwhile.
abbrev other_comes : Event
other_comes = source_info (7 ∷ []) (pos 5) connected false

abbrev other_goes : Event
other_goes = source_info (7 ∷ []) (pos 6) disconnected false

handle_connection-sources_example :
    (contains_key source
        (check_sources_conn takes
          (source_info source (pos 4) connected false ∷ other_comes ∷ [])
          nobody).sources
      ≡ true)
    × (contains_key source
          (check_sources_conn takes
            (source_info source (pos 4) connected false
              ∷ other_comes
              ∷ other_goes
              ∷ source_info source (pos 9) disconnected false
              ∷ [])
            nobody).sources
        ≡ false)
    × (contains_key source
          (lost_state takes takes_all
            (λ e. refl)
            (sensor agent)
            agent
            source
            (pos 4)
            refl
            2
            nobody
            (other_error "reset")
            (pos 9)).packet_sources
        ≡ false)
unfolding contains handle_connection cmp
handle_connection-sources_example =
    handle_connection-sources takes takes_all (λ e. refl) (sensor agent) agent source (pos 4) refl 2
      nobody (other_error "reset") (pos 9)
      (source_info source (pos 4) connected false ∷ other_comes ∷ [])
      (source_info source (pos 4) connected false
        ∷ other_comes
        ∷ other_goes
        ∷ source_info source (pos 9) disconnected false
        ∷ [])
      refl refl refl

abbrev player : Bytes
player = 112 ∷ reproduce
