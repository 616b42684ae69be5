-- ===== src/Tests/Records.antt =====
-- Filters and packets (src/ingest/implement.rs, src/graphql/packet.rs, src/graphql.rs).
use giganto.Prelude.{◌≡◌, refl, false, none, some, [], ◌∷◌, arith}
use giganto.Bytes.{Bytes}
use giganto.Chrono.{nanos, nanos_order}
use giganto.Dispatch.{packet}
use giganto.Events.Admitted.{Event, log, is_http, fields_of, search_keyword}
use giganto.Export.File.{returned}
use giganto.Filter.{SearchFilter}
use giganto.Ingest.EventKey.{Formats, event_key}
use giganto.Int64.{pos}
use giganto.Outcome.{Outcome, ok}
use giganto.Packets.{Pk, header_of, from_key_value}
use giganto.Packets.Fraction.{header_of_fraction}
use giganto.Packets.Times.{from_key_value-event_key}
use giganto.Search.{search}
use giganto.Tests.{table, three_entries, source}
use giganto.Tests.Peers.{parse}
use giganto.Tests.Streams.{formats}

abbrev with_keyword : SearchFilter
with_keyword = record {
  network = record { orig_addr = none; resp_addr = none; orig_port = none; resp_port = none };
  keyword = some (7 ∷ []);
}

abbrev a_log : Bytes → Outcome Event
a_log v = ok log

never_http : (value : Bytes) (e : Event) → a_log value ≡ ok e → is_http e ≡ false
never_http value e h = cc

search_keyword_example :
    search nanos nanos_order none parse
      (λ s. s)
      fields_of
      a_log
      with_keyword
      (table three_entries)
      source
      (pos 10 ∷ [])
    ≡ []
search_keyword_example =
    search_keyword parse nanos nanos_order none (λ s. s) a_log with_keyword (7 ∷ [])
      (table three_entries) source (pos 10 ∷ []) refl never_http

abbrev one_packet : Pk
one_packet = record { packet_timestamp = pos 12; packet = 1 ∷ [] }

abbrev packet_formats : Formats
packet_formats = record formats { packet_timestamp = λ raw. ok (pos 12) }

header_of_fraction_example : ¬ (
    (header_of (record { packet_timestamp = pos 3000000100; packet = 1 ∷ [] })).tv_usec ≡ pos 100)
header_of_fraction_example = header_of_fraction 3 100 (1 ∷ []) (λ h. cc)

from_key_value-event_key_example :
    (key : Bytes) × (event_key packet_formats packet source (9 ∷ []) (pos 10) ≡ ok (key, 9 ∷ []))
    × (from_key_value nanos (λ b. b) key one_packet
        ≡ returned (ok (record { request_time = pos 10; packet_time = pos 12; packet = 1 ∷ [] })))
from_key_value-event_key_example =
    from_key_value-event_key nanos (λ b. b) packet_formats source (9 ∷ []) (pos 10) (pos 12)
      one_packet (omega arith) (omega arith) refl
