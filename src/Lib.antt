-- ===== src/Lib.antt =====
-- Giganto receives events from the sensors of a network (ingest), keeps them in RocksDB (storage),
-- and gives them out: as pages of GraphQL queries (graphql) and as ranges, raw events and live
-- streams to the analysers (publish). Nodes of a cluster tell each other their peers and sources
-- (peer). This library models the decisions that these parts make and proves what makes them right.
--
-- The parts, and the files that model them:
--   * Key: `StorageKeyBuilder` of src/storage.rs and `get_timestamp_from_key` of src/graphql.rs, a
--     function for each method. Key/Shape is on the form of keys, Key/Window on time ranges.
--   * Families: the column families, their accessors and `retain_period_store` of src/storage.rs.
--   * Store: what a query reads of RocksDB. A `RawEventStore` here is the results of `iterator_cf`
--     and `get_cf`, and the record `Scans` says what RocksDB documents of them for a store that has
--     a given list of entries and is read without errors.
--   * Iter: `BoundaryIter`, `FilteredIter` and `StatisticsIter` of src/storage.rs, with `next` as a
--     function to an item and the next state.
--   * Page: `get_connection` and `collect_records` of src/graphql.rs; each of the four branches of
--     the first is a function of its own. Page/Loaded is `load_connection`;
--     Page/Shown joins it to the ingestion.
--   * Filter: `check_address`, `check_port`, `check_contents` and `check_source` of src/graphql.rs
--     and the `check` of the filters of src/graphql/network.rs, src/graphql/log.rs and
--     src/graphql/security.rs; Filter/Keys has their keys and time ranges.
--   * Network: `network_connection` of src/graphql/network.rs, with Network/Stores for
--     `get_filtered_iter` of src/graphql.rs and `network_raw_events`. The sixteen stores are a list in
--     the order of the `match`, a store's records the list that its iterator yields. Merge is the
--     stable merge that it is compared with.
--   * Search: the searches by timestamps, with `collect_exist_timestamp` of src/graphql.rs and
--     `multi_get_from_ts` of src/storage.rs; Search/Queries is the store that each query reads.
--   * Export: the export of records as text of src/graphql/export.rs. Export is the request and the
--     choice of the store, Export/File the file that the task writes, line by line, Export/Statistics
--     the merge of the cores' statistics. A task can end in a panic, which is a value here.
--   * Statistics: the traffic of the sources, src/graphql/statistics.rs; Statistics/Query has its
--     loops. The quotient of floats is a parameter, a `HashMap` is read in the order of insertion.
--   * Dispatch: the tables from a kind of event to its store in `handle_request` of src/ingest.rs
--     and in `handle_request` and `process_stream` of src/publish.rs.
--   * Ingest: `handle_data` of src/ingest.rs. Its state is the list of what was done, the counter
--     and the time of the acknowledgements and where the interval task is; Ingest/EventKey is the
--     choice of an event's key.
--   * Sources: `check_sources_conn` of src/ingest.rs with `SourceStore::insert` of src/storage.rs, and
--     in Sources/Connection `handle_connection`, which sends it its messages.
--   * Migration: src/storage/migration.rs; Migration/Http is the conversion of HTTP events.
--   * Publish: `process_range_data`, `process_raw_events` and `send_direct_stream` of src/publish.rs,
--     the channel keys of src/publish/implement.rs and `NetworkKey` of src/ingest.rs; Publish/Streams
--     is `send_stream` with the task that forwards the events as they arrive, Publish/Requests
--     and Publish/Answers are the connections and their requests, which call these functions.
--   * Events: `EventFilter` of src/ingest/implement.rs, in Events/Impls for each type of event.
--   * Packets: the packets and packet captures of src/graphql/packet.rs, with `write_run_tcpdump` of
--     src/graphql.rs. The capture file and `tcpdump` are one parameter.
--   * Retain: `retain_periodically` of src/storage.rs; Retain/Periodic is its loop with its failures.
--   * Config: the configuration queries of src/graphql/status.rs; `toml_edit` is the interface `Toml`,
--     which the documents of Config/Table meet.
--   * Peer: `update_to_new_peer_list` and its neighbours in src/peer.rs; Peer/Connection is what the
--     two roles of a connection share and the server's, Peer/Connection/Client the client's, and
--     Peer/Run the node's own loop.
--   * Bytes, Int64, Outcome and Chrono are slices of bytes, `i64`, results and `DateTime<Utc>`;
--     Prelude has the names that all share, and Tests the concrete examples.
--
-- How the parts meet: the keys that Ingest/EventKey makes are those that Page, Publish and Retain
-- bound with the functions of Key; the families of Families are what Dispatch chooses from; the
-- pages and the ranges read a store through the iterators of Iter. Everything outside the
-- repository is a parameter: RocksDB, bincode, base64, the network, the clock and the parser of
-- addresses. Where a proof relies on one of them its documented behaviour is a hypothesis, and
-- Tests has an instance that meets it.
--
-- Bounds: numbers have no bound of their own; an `i64` is a signed number with the hypothesis that
-- it is in range where that matters, the 16-bit counter of acknowledgements wraps, and lengths that
-- are sent are tested against 32 bits. Most loops are recursions on the list that they
-- read. The loop of Network has as many rounds as there are records and one more, the calls of
-- `next` are one more than the items, the loop of Migration has two rounds, and those of
-- Export/Statistics and Statistics a round for each record and one more; it is proved that this is
-- enough. A stream of events is the list of what the task wakes up for. The interval task takes
-- any number of its own steps, which a schedule gives, before each action of the loop and behind its
-- end; actions may fail at any point. The task of a stream between two nodes handles its request at
-- any moment, behind the end of the connection too.
--
-- Not modelled: endpoints, certificates and handshakes, the GraphQL objects of the records, the
-- text and JSON of each event type, the reading of the settings and the start of the program.
pub mod Prelude
pub mod Bytes
pub mod Int64
pub mod Outcome
pub mod Chrono
pub mod Key
pub mod Statistics
pub mod Store
pub mod Iter
pub mod Filter
pub mod Page
pub mod Families
pub mod Dispatch
pub mod Ingest
pub mod Publish
pub mod Sources
pub mod Retain
pub mod Peer
pub mod Tests
pub mod Search
pub mod Events
pub mod Packets
pub mod Config
pub mod Merge
pub mod Export
pub mod Migration
pub mod Network
