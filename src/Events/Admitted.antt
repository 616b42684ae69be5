-- ===== src/Events/Admitted.antt =====
-- Which events the filters of the queries admit, by their type (src/ingest/implement.rs with
-- src/graphql.rs and src/graphql/network.rs).
use giganto.Prelude.{ℕ, ◌≡◌, refl, Bool, true, false, Option, none, some, List, [], ◌∷◌, inl, arith}
use giganto.Bytes.{Bytes}
use giganto.Chrono.{Chrono, Moments}
use giganto.Filter.{
  Text, IpAddr, Fields, IpRange, PortRange, NetworkFilter, SearchFilter, check_network,
  check_address, check_port, check_network_filter, check_search,
}
use giganto.Outcome.{Outcome, ok}
use giganto.Search.{search}
use giganto.Search.Found.{In, search-Found}
use giganto.Store.{RawEventStore}
use giganto.Events.{Flow, Http, OpLog, Netflow9, SecuLog}
use giganto.Events.Impls

-- An event of any type, with what the filters read of it.
pub data Event : Type 0 where
  conn dns rdp smtp ntlm kerberos ssh dce_rpc ftp mqtt ldap tls smb nfs network_connection
        netflow5 :
      Flow → Event
  log periodic_time_series packet statistics process_create file_creation_time_changed
        process_terminated image_loaded file_create registry_value_set registry_key_value_rename
        file_create_stream_hash pipe_event dns_event file_delete process_tampering
        file_delete_detected :
      Event
  http : Http → Event
  op_log : OpLog → Event
  netflow9 : Netflow9 → Event
  secu_log : SecuLog → Event

-- `fields` of its type.
abbrev pub fields_of : Event → Fields
fields_of (conn e) = Impls.conn.fields e
fields_of (dns e) = Impls.dns.fields e
fields_of (rdp e) = Impls.rdp.fields e
fields_of (smtp e) = Impls.smtp.fields e
fields_of (ntlm e) = Impls.ntlm.fields e
fields_of (kerberos e) = Impls.kerberos.fields e
fields_of (ssh e) = Impls.ssh.fields e
fields_of (dce_rpc e) = Impls.dce_rpc.fields e
fields_of (ftp e) = Impls.ftp.fields e
fields_of (mqtt e) = Impls.mqtt.fields e
fields_of (ldap e) = Impls.ldap.fields e
fields_of (tls e) = Impls.tls.fields e
fields_of (smb e) = Impls.smb.fields e
fields_of (nfs e) = Impls.nfs.fields e
fields_of (network_connection e) = Impls.network_connection.fields e
fields_of (netflow5 e) = Impls.netflow5.fields e
fields_of (http e) = Impls.http.fields e
fields_of (op_log e) = Impls.op_log.fields e
fields_of (netflow9 e) = Impls.netflow9.fields e
fields_of (secu_log e) = Impls.secu_log.fields e
fields_of log = Impls.log.fields tt
fields_of periodic_time_series = Impls.periodic_time_series.fields tt
fields_of packet = Impls.packet.fields tt
fields_of statistics = Impls.statistics.fields tt
fields_of process_create = Impls.process_create.fields tt
fields_of file_creation_time_changed = Impls.file_creation_time_changed.fields tt
fields_of process_terminated = Impls.process_terminated.fields tt
fields_of image_loaded = Impls.image_loaded.fields tt
fields_of file_create = Impls.file_create.fields tt
fields_of registry_value_set = Impls.registry_value_set.fields tt
fields_of registry_key_value_rename = Impls.registry_key_value_rename.fields tt
fields_of file_create_stream_hash = Impls.file_create_stream_hash.fields tt
fields_of pipe_event = Impls.pipe_event.fields tt
fields_of dns_event = Impls.dns_event.fields tt
fields_of file_delete = Impls.file_delete.fields tt
fields_of process_tampering = Impls.process_tampering.fields tt
fields_of file_delete_detected = Impls.file_delete_detected.fields tt

abbrev pub is_http : Event → Bool
is_http (http e) = true
is_http _ = false

-- The types without addresses and ports.
abbrev pub has_flow : Event → Bool
has_flow log = false
has_flow periodic_time_series = false
has_flow packet = false
has_flow statistics = false
has_flow process_create = false
has_flow file_creation_time_changed = false
has_flow process_terminated = false
has_flow image_loaded = false
has_flow file_create = false
has_flow registry_value_set = false
has_flow registry_key_value_rename = false
has_flow file_create_stream_hash = false
has_flow pipe_event = false
has_flow dns_event = false
has_flow file_delete = false
has_flow process_tampering = false
has_flow file_delete_detected = false
has_flow (op_log e) = false
has_flow _ = true

-- The addresses, then the ports.
abbrev pub Unaddressed : Fields → Type 0
Unaddressed f =
    (f.orig_addr ≡ none) × (f.resp_addr ≡ none) × (f.orig_port ≡ none) × (f.resp_port ≡ none)

pub no_flow : (e : Event) → has_flow e ≡ false → Unaddressed (fields_of e)
no_flow (conn e) h = cc
no_flow (dns e) h = cc
no_flow (rdp e) h = cc
no_flow (smtp e) h = cc
no_flow (ntlm e) h = cc
no_flow (kerberos e) h = cc
no_flow (ssh e) h = cc
no_flow (dce_rpc e) h = cc
no_flow (ftp e) h = cc
no_flow (mqtt e) h = cc
no_flow (ldap e) h = cc
no_flow (tls e) h = cc
no_flow (smb e) h = cc
no_flow (nfs e) h = cc
no_flow (network_connection e) h = cc
no_flow (netflow5 e) h = cc
no_flow (http e) h = cc
no_flow (netflow9 e) h = cc
no_flow (secu_log e) h = cc
no_flow log h = (refl, refl, refl, refl)
no_flow periodic_time_series h = (refl, refl, refl, refl)
no_flow packet h = (refl, refl, refl, refl)
no_flow statistics h = (refl, refl, refl, refl)
no_flow process_create h = (refl, refl, refl, refl)
no_flow file_creation_time_changed h = (refl, refl, refl, refl)
no_flow process_terminated h = (refl, refl, refl, refl)
no_flow image_loaded h = (refl, refl, refl, refl)
no_flow file_create h = (refl, refl, refl, refl)
no_flow registry_value_set h = (refl, refl, refl, refl)
no_flow registry_key_value_rename h = (refl, refl, refl, refl)
no_flow file_create_stream_hash h = (refl, refl, refl, refl)
no_flow pipe_event h = (refl, refl, refl, refl)
no_flow dns_event h = (refl, refl, refl, refl)
no_flow file_delete h = (refl, refl, refl, refl)
no_flow process_tampering h = (refl, refl, refl, refl)
no_flow file_delete_detected h = (refl, refl, refl, refl)
no_flow (op_log e) h = (refl, refl, refl, refl)

no_text : (e : Event) → is_http e ≡ false → (fields_of e).text ≡ none
no_text (conn e) h = refl
no_text (http e) h = cc
no_text _ h = refl

nothing-In : {A : Type 0} (xs : List A) → ((x : A) → In x xs → ⊥) → xs ≡ []
nothing-In [] h = refl
nothing-In (x ∷ xs) h = absurd (h x (inl refl))

module _ (parse : Text → Outcome IpAddr) where
  no_address :
      (r : Option IpRange) (a : Option IpAddr) → a ≡ none → check_address parse r a ≡ ok true
  unfolding check_address
  no_address none a h = refl
  no_address (some r) a h = rw h refl

  no_port : (r : Option PortRange) (p : Option ℕ) → p ≡ none → check_port r p ≡ true
  unfolding check_port
  no_port none p h = refl
  no_port (some r) p h = rw h refl

  -- An event of a type without addresses, such as those of the endpoints but one, is admitted by
  -- every network filter, whatever it asks for and whether or not its addresses can be parsed.
  pub check_network_filter-unaddressed :
      (filter : NetworkFilter) (e : Event)
      → has_flow e ≡ false
      → check_network_filter parse filter (fields_of e) ≡ ok true
  unfolding check_network
  check_network_filter-unaddressed filter e h =
      let (a, b, p, q) = no_flow e h in
      rw
        (
          no_address filter.orig_addr (fields_of e).orig_addr a,
          no_address filter.resp_addr (fields_of e).resp_addr b,
          no_port filter.orig_port (fields_of e).orig_port p,
          no_port filter.resp_port (fields_of e).resp_port q,
        )
        refl

  keyword_refused :
      (to_lowercase : Text → Text) (filter : SearchFilter) (keyword : Text) (e : Event)
      → filter.keyword ≡ some keyword
      → is_http e ≡ false
      → check_search parse to_lowercase filter (fields_of e) ≡ ok false
  unfolding check_search
  keyword_refused to_lowercase filter keyword e k h = rw (k, no_text e h) refl

  -- A search with a keyword finds nothing in a store whose events are of any type but `Http`: no
  -- other type has a text.
  pub search_keyword :
      (c : Chrono) (m : Moments (c.DateTime))
      (time : Option (Option (c.DateTime) × Option (c.DateTime))) (to_lowercase : Text → Text)
      (deserialize : Bytes → Outcome Event) (filter : SearchFilter) (keyword : Text)
      (store : RawEventStore) (source : Bytes) (timestamps : List (c.DateTime))
      → filter.keyword ≡ some keyword
      → ((value : Bytes) (e : Event) → deserialize value ≡ ok e → is_http e ≡ false)
      → search c m time parse to_lowercase fields_of deserialize filter store source timestamps ≡ []
  search_keyword c m time to_lowercase deserialize filter keyword store source timestamps k
        none_http =
      nothing-In
        (search c m time parse to_lowercase fields_of deserialize filter store source timestamps)
        (λ t i.
          let found =
            (search-Found c m time parse to_lowercase fields_of deserialize filter store source
                timestamps t).0
              i in
          let (e, decoded, inside, admitted) = found.1.2 in
          let refused =
            keyword_refused to_lowercase filter keyword e k (none_http (found.1.0) e decoded) in
          (ground (arith, admitted, refused)))
