-- ===== src/Sources/Connection/Observed.antt =====
-- What `check_sources_conn` (src/ingest.rs) makes of the messages of one connection.
use giganto.Prelude.{
  ◌≡◌, sym, refl, ap, ◌∙◌, ℕ, Bool, true, false, List, [], ◌∷◌, select, Bool-cases, inl, inr,
  if◌then◌else◌,
}
use giganto.Bytes.{Bytes}
use giganto.Int64.{ℤ}
use giganto.Outcome.{Outcome, ok}
use giganto.Filter.{contains}
use giganto.Store.{equals}
use giganto.Store.Sorted.{equals_refl}
use giganto.Sources.Recorded.{connected_after, check_sources_conn-connected}
use giganto.Sources.{
  Map, insert, remove, connected, disconnected, Event, tick, source_info, SourceState,
  append_source, handle_event, check_sources_conn,
}
use giganto.Sources.Maps.{contains_key, remove-same, insert_lem}
use giganto.Sources.Connection.{
  Incoming, identified, ConnectionError, connection_lost, Handled, reproduce, handle_connection,
}
use giganto.Sources.Connection.Ended.{
  after_streams, handle_connection-running, handle_connection-ended,
}

present_lem :
    (source : Bytes) (now : ℤ) (m : Map ℤ) → contains_key source (insert source now m) ≡ true
present_lem source now m = rw (insert_lem source source now m, equals_refl source) refl

-- Whether a message connects or disconnects a source, which a report does not.
abbrev pub decides : Bytes → Event → Bool
decides source (tick now) = false
decides source (source_info other ts state rep) = if rep then false else equals other source

connected_after-select :
    (source : Bytes) (events : List Event) (b : Bool)
    → connected_after source events b ≡ connected_after source (select (decides source) events) b
connected_after-select source [] b = refl
connected_after-select source (tick now ∷ events) b = connected_after-select source events b
connected_after-select source (source_info other ts state true ∷ events) b =
    connected_after-select source events b
connected_after-select source (source_info other ts state false ∷ events) b =
    elim (Bool-cases (equals other source)) [
      | inl t ↦ rw (t) (
          connected_after-select source events
            (elim state [ connected ↦ true | disconnected ↦ false ])
          ∙ ap
              (λ c.
                connected_after source (select (decides source) events)
                  (if c then (elim state [ connected ↦ true | disconnected ↦ false ]) else b))
              (sym t))
      | inr t ↦ rw t (connected_after-select source events b)
    ]

module _ (stores : Map ℤ → Bytes → Bool) where
  -- The state of the task behind the messages of a connection.
  abbrev pub observed : Handled → SourceState → SourceState
  observed h s = check_sources_conn stores h.sent (record s { packet_sources = h.packet_sources })

  came_lem :
      (source : Bytes) (now : ℤ) (s : SourceState)
      → (handle_event stores (source_info source now connected false) s).sources
        ≡ insert source now s.sources
  unfolding handle_event append_source
  came_lem source now s = elim (Bool-cases (stores s.source_store source)) [
    | inl t ↦ rw t refl
    | inr t ↦ rw t refl
  ]

  went_lem :
      (source : Bytes) (now : ℤ) (s : SourceState)
      → ((handle_event stores (source_info source now disconnected false) s).sources
          ≡ remove source s.sources)
        × ((handle_event stores (source_info source now disconnected false) s).packet_sources
            ≡ remove source s.packet_sources)
  unfolding handle_event append_source
  went_lem source now s = elim (Bool-cases (stores s.source_store source)) [
    | inl t ↦ (rw t refl, rw t refl)
    | inr t ↦ (rw t refl, rw t refl)
  ]

  reproduced_lem :
      (source : Bytes) (now : ℤ) (s : SourceState)
      → ((handle_event stores (source_info source now connected true) s).sources ≡ s.sources)
        × ((handle_event stores (source_info source now connected true) s).packet_sources
            ≡ s.packet_sources)
        × ((handle_event stores (source_info source now disconnected true) s).sources ≡ s.sources)
        × ((handle_event stores (source_info source now disconnected true) s).packet_sources
            ≡ s.packet_sources)
  unfolding handle_event append_source
  reproduced_lem source now s = elim (Bool-cases (stores s.source_store source)) [
    | inl t ↦ (rw t refl, rw t refl, rw t refl, rw t refl)
    | inr t ↦ (rw t refl, rw t refl, rw t refl, rw t refl)
  ]

  module _ (sends : Event → Outcome (Unit {0})) (all_sent : (e : Event) → sends e ≡ ok tt)
      (incoming : Incoming) (agent source : Bytes) (now : ℤ)
      (known : identified incoming ≡ ok (agent, source)) (n : ℕ) (s : SourceState) where
    -- A connection that was lost after it had accepted streams.
    abbrev pub lost_state : ConnectionError → ℤ → SourceState
    lost_state error later =
        observed
          (handle_connection sends incoming now (after_streams n (connection_lost error later ∷ []))
            s.packet_sources)
          s

    abbrev came : SourceState
    came =
        handle_event stores (source_info source now connected false)
          (record s { packet_sources = insert source incoming.packet_sender s.packet_sources })

    -- What the connection has sent while it lasts, and when it has been lost.
    abbrev sent_open : List Event
    sent_open = (handle_connection sends incoming now (after_streams n []) s.packet_sources).sent

    abbrev sent_lost : ConnectionError → ℤ → List Event
    sent_lost error later =
        (handle_connection sends incoming now (after_streams n (connection_lost error later ∷ []))
          s.packet_sources).sent

    -- A source that is not being reproduced and whose handshake succeeds is among the connected
    -- sources while its connection lasts, after any number of streams, and no longer when the
    -- connection has been lost, whatever the error; its sender of packet captures is then gone, where
    -- no other messages come. The task receives, among any other messages, of those that connect or
    -- disconnect this source exactly the ones of this connection: no other connection of the
    -- source begins or ends meanwhile. The channel takes every message.
    pub handle_connection-sources :
        (error : ConnectionError) (later : ℤ) (while_open until_lost : List Event)
        → contains agent reproduce ≡ false
        → select (decides source) while_open ≡ sent_open
        → select (decides source) until_lost ≡ sent_lost error later
        → (contains_key source (check_sources_conn stores while_open s).sources ≡ true)
          × (contains_key source (check_sources_conn stores until_lost s).sources ≡ false)
          × (contains_key source (lost_state error later).packet_sources ≡ false)
    unfolding check_sources_conn
    handle_connection-sources error later while_open until_lost r opened closed =
        let there =
          handle_connection-running sends all_sent incoming agent source now known n
            s.packet_sources in
        let lost =
          handle_connection-ended sends all_sent incoming agent source now known n s.packet_sources
            error later [] in
        let gone = went_lem source later came in
        let same = equals_refl source in
        let before = contains_key source s.sources in
        (
          check_sources_conn-connected stores while_open s source
              ∙ connected_after-select source while_open before
              ∙ ap (λ l. connected_after source l before)
                  (opened ∙ ap (λ (h : Handled). h.sent) there)
              ∙ rw (r, same) refl,
          check_sources_conn-connected stores until_lost s source
              ∙ connected_after-select source until_lost before
              ∙ ap (λ l. connected_after source l before)
                  (closed ∙ ap (λ (h : Handled). h.sent) lost)
              ∙ rw (r, same) refl,
          rw (lost, r) (ap (contains_key source) gone.1 ∙ remove-same source came.packet_sources),
        )

    -- A connection of an agent that reproduces events, from its handshake to its loss, leaves the
    -- connected sources and the senders of packet captures as they were.
    pub handle_connection_reproduced :
        (error : ConnectionError) (later : ℤ)
        → contains agent reproduce ≡ true
        → ((lost_state error later).sources ≡ s.sources)
          × ((lost_state error later).packet_sources ≡ s.packet_sources)
    unfolding check_sources_conn
    handle_connection_reproduced error later r =
        let lost =
          handle_connection-ended sends all_sent incoming agent source now known n s.packet_sources
            error later [] in
        let came = handle_event stores (source_info source now connected true) s in
        (
          rw (lost, r) ((reproduced_lem source later came).2 ∙ (reproduced_lem source now s).0),
          rw (lost, r) ((reproduced_lem source later came).3 ∙ (reproduced_lem source now s).1),
        )
