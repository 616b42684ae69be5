-- ===== src/Export/Protocols.antt =====
-- The stores that a request for an export reaches (`export` and `export_by_protocol` of
-- src/graphql/export.rs), and those that events are ingested into.
use text.Mathlib.Text.{◌==◌ as str_eq}
use text.Mathlib.TextEquality.{eq_iff}
use giganto.Prelude.{
  ◌≡◌, refl, Bool, true, false, ◌||◌, not, none, some, List, [], ◌∷◌, All, All-every, Bool-cases,
  Option-cases, inl, inr, String, arith,
}
use giganto.Outcome.{Outcome, ok, ◌>>=◌, bind_ok}
use giganto.Chrono.{Chrono}
use giganto.Families.{
  Accessor, process_create, file_create_time, network_connect, process_terminate, image_load,
  file_create, registry_value_set, registry_key_rename, file_create_stream_hash, pipe_event,
  dns_query, file_delete, process_tamper, file_delete_detected, member,
}
use giganto.Filter.{Text}
use giganto.Page.{is_some}
use giganto.Dispatch.{RawEventKind, Handler, ingest_handler}
use giganto.Export.{
  ExportFilter, non_network, protocols, find_protocol, export_by_protocol, has_middle, validate,
  export,
}

-- The stores of the events of an endpoint, whose keys have the agent in their middle.
abbrev pub is_endpoint : Accessor → Bool
is_endpoint process_create = true
is_endpoint file_create_time = true
is_endpoint network_connect = true
is_endpoint process_terminate = true
is_endpoint image_load = true
is_endpoint file_create = true
is_endpoint registry_value_set = true
is_endpoint registry_key_rename = true
is_endpoint file_create_stream_hash = true
is_endpoint pipe_event = true
is_endpoint dns_query = true
is_endpoint file_delete = true
is_endpoint process_tamper = true
is_endpoint file_delete_detected = true
is_endpoint _ = false

abbrev pub Exports : Handler → Type 0
Exports none = Unit
Exports (some (store, none)) = Unit
Exports (some (store, some protocol)) = export_by_protocol protocol ≡ ok store

-- The protocol that a kind of event is announced under to the direct streams exports the store
-- that events of the kind are ingested into.
pub export_by_protocol-ingest : (kind : RawEventKind) → Exports (ingest_handler kind)
unfolding export_by_protocol ingest_handler
export_by_protocol-ingest RawEventKind.conn = refl
export_by_protocol-ingest RawEventKind.dns = refl
export_by_protocol-ingest RawEventKind.log = refl
export_by_protocol-ingest RawEventKind.http = refl
export_by_protocol-ingest RawEventKind.rdp = refl
export_by_protocol-ingest RawEventKind.smtp = refl
export_by_protocol-ingest RawEventKind.ntlm = refl
export_by_protocol-ingest RawEventKind.kerberos = refl
export_by_protocol-ingest RawEventKind.ssh = refl
export_by_protocol-ingest RawEventKind.dce_rpc = refl
export_by_protocol-ingest RawEventKind.ftp = refl
export_by_protocol-ingest RawEventKind.mqtt = refl
export_by_protocol-ingest RawEventKind.ldap = refl
export_by_protocol-ingest RawEventKind.tls = refl
export_by_protocol-ingest RawEventKind.smb = refl
export_by_protocol-ingest RawEventKind.nfs = refl
export_by_protocol-ingest _ = tt

-- What holds of every row of a table holds of one that is found in it.
find_protocol-row :
    (P : String → Accessor → Bool) (name : String) (rows : List (String × Accessor))
    (store : Accessor)
    → All (λ row. P row.0 row.1 ≡ true) rows
    → find_protocol name rows ≡ some store
    → P name store ≡ true
unfolding find_protocol
find_protocol-row P name [] store h f = cc
find_protocol-row P name ((n, s) ∷ rows) store h f = elim (Bool-cases (str_eq n name)) [
  | inl e ↦
      let same : n ≡ name = (eq_iff n name).0 e in
      let found : some s ≡ some store = rw e at f in let r : P n s ≡ true = h.0 in cc
  | inr e ↦ find_protocol-row P name rows store h.1 (rw e at f)
]

protocol_found :
    (name : String) (store : Accessor)
    → export_by_protocol name ≡ ok store
    → find_protocol name protocols ≡ some store
unfolding export_by_protocol
protocol_found name store x = elim (Option-cases (find_protocol name protocols)) [
  | inl f ↦ let y = rw (export_by_protocol, f) at x in cc
  | inr (a, f) ↦ let y = rw (export_by_protocol, f) at x in cc
]

either_way : (a b : Bool) → (a || true || b) ≡ true
either_way true b = refl
either_way false b = refl

excluded : (e m h : Bool) → h ≡ true → (m || not h) ≡ true → (not e || not m) ≡ true → e ≡ false
excluded e m h a b c = ground arith

-- No name of an endpoint's store is among those that are exempt from the check of the network
-- protocols.
abbrev refused_names : String → Accessor → Bool
refused_names name store = not (is_endpoint store) || not (member name non_network)

endpoint_names : All (λ row. refused_names row.0 row.1 ≡ true) protocols
unfolding member
endpoint_names = All-every (λ row. refused_names row.0 row.1) protocols refl

module _ (c : Chrono) (export_type : String) (filter : ExportFilter c)
    (create_dir_all : Outcome (Unit {0})) where
  -- What a store that is exported says of the request.
  export-found :
      (store : Accessor)
      → export c export_type filter create_dir_all ≡ ok store
      → (find_protocol filter.protocol protocols ≡ some store)
        × (validate c export_type filter ≡ ok tt)
  unfolding export
  export-found store x =
      let (u, v, y) =
        bind_ok (validate c export_type filter)
          (λ _. create_dir_all >>= (λ _. export_by_protocol filter.protocol)) store x in
      let (w, d, z) = bind_ok create_dir_all (λ _. export_by_protocol filter.protocol) store y in
      (protocol_found filter.protocol store z, v)

  validated :
      validate c export_type filter ≡ ok tt
      → (member filter.protocol non_network || not (has_middle c filter)) ≡ true
  unfolding validate
  validated x = elim (Bool-cases (member filter.protocol non_network)) [
    | inl m ↦ rw m refl
    | inr m ↦ elim (Bool-cases (has_middle c filter)) [
      | inl h ↦ let y = rw (validate, m, h) at x in cc
      | inr h ↦ rw (m, h) refl
    ]
  ]

  -- No request that names an agent exports a store of endpoint events.
  pub export_agent :
      (agent : Text) (store : Accessor)
      → filter.agent_name ≡ some agent
      → export c export_type filter create_dir_all ≡ ok store
      → is_endpoint store ≡ false
  unfolding export validate export_by_protocol
  export_agent agent store a x =
      let (f, v) = export-found store x in
      let named : has_middle c filter ≡ true =
        rw a (either_way (is_some filter.kind) (is_some filter.agent_id)) in
      let m = validated v in
      let r = find_protocol-row refused_names filter.protocol protocols store endpoint_names f in
      excluded (is_endpoint store) (member filter.protocol non_network) (has_middle c filter) named
        m r
