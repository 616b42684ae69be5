-- ===== src/Publish/Requests/Pcap.antt =====
-- Requests for packets (`request_stream` and `process_pcap_extract` of src/publish.rs).
use giganto.Prelude.{
  ◌≡◌, refl, sym, ap, ◌∙◌, ◌↔◌, ℕ, Option, none, some, List, [], ◌∷◌, ◌++◌, Bool-cases,
  Option-cases, inl, inr, String,
}
use giganto.Bytes.{Bytes}
use giganto.Outcome.{Outcome, ok, err, Outcome-cases}
use giganto.Dispatch.{RequestStreamRecord, pcap}
use giganto.Search.Found.{In}
use giganto.Sources.{Map}
use giganto.Publish.Channel.{RequestHogStream, RequestCrusherStream}
use giganto.Publish.Requests.{
  PcapFilter, Reply, accepted, refused, get, pass_on, process_pcap_extract, NodeType, Action,
  extracted, is_pcap, start_stream, request_stream,
}

-- Of the filters that are asked for, exactly those are passed on whose source has a connection, to
-- that connection; the sources' connections stay the same meanwhile.
pass_on-In :
    (packet_sources : Map ℕ) (filters : List PcapFilter) (n : ℕ) (filter : PcapFilter)
    → In (n, filter) (pass_on (λ left. packet_sources) filters)
      ↔ In filter filters × (get filter.source packet_sources ≡ some n)
unfolding pass_on
pass_on-In packet_sources [] n filter = (λ i. absurd i, λ x. absurd x.0)
pass_on-In packet_sources (f ∷ filters) n filter =
    let rest = pass_on-In packet_sources filters n filter in
    elim (Option-cases (get f.source packet_sources)) [
      | inl e ↦
          rw (pass_on, e)
            (
              λ i. (let (j, g) = rest.0 i in (inr j, g)),
              λ x. elim x.0 [ inl q ↦ (let g = x.1 in cc) | inr j ↦ rest.1 (j, x.1) ],
            )
      | inr (m, e) ↦
          rw (pass_on, e)
            (
              λ i. elim i [
                | inl q ↦ (
                  inl (ap (λ p. p.1) q),
                  ap (λ p. get p.1.source packet_sources) q ∙ e ∙ ap (λ p. some p.0) (sym q),
                )
                | inr j ↦ (let (k, g) = rest.0 j in (inr k, g))
              ],
              λ x. elim x.0 [ inl q ↦ inl (let g = x.1 in cc) | inr j ↦ inr (rest.1 (j, x.1)) ],
            )
    ]

abbrev pub refusal : Action
refusal = extracted (record {
  result = err "Failed to deserialize Pcapfilters";
  reply = some refused;
  passed_on = [];
})

some-none : {A : Type 0} {a : A} → some a ≡ none → ⊥
some-none h = cc

module _ (decode_filters : Bytes → Outcome (List PcapFilter)) (sends : Reply → Outcome (Unit {0}))
    (packet_sources : List PcapFilter → Map ℕ) (decode_hog : Bytes → Outcome RequestHogStream)
    (decode_crusher : Bytes → Outcome RequestCrusherStream) (conn_source : Bytes) where
  abbrev pub run :
      List (Outcome (NodeType × RequestStreamRecord × Bytes))
      → List Action
      → Option (Outcome (Unit {0})) × List Action
  run requests done =
      request_stream (process_pcap_extract decode_filters sends packet_sources) decode_hog
        decode_crusher conn_source requests done

  -- Wherever it stands among the requests of a connection, a request for packets that cannot be
  -- decoded ends the task once it has been refused: the requests after it are not answered. The
  -- refusal can be sent, and the requests before it have not ended the task.
  pub request_stream_refused :
      (requests rest : List (Outcome (NodeType × RequestStreamRecord × Bytes)))
      (node_type : NodeType) (raw_data : Bytes) (e : String) (done : List Action)
      → decode_filters raw_data ≡ err e
      → sends refused ≡ ok tt
      → (run requests done).0 ≡ none
      → run (requests ++ ok (node_type, pcap, raw_data) ∷ rest) done
        ≡ (some (err "Failed to deserialize Pcapfilters"), (run requests done).1 ++ refusal ∷ [])
  unfolding request_stream process_pcap_extract
  request_stream_refused [] rest node_type raw_data e done d s h =
      rw (request_stream, process_pcap_extract, d, s) (rw (process_pcap_extract, d, s) refl)
  request_stream_refused (err x ∷ requests) rest node_type raw_data e done d s h = cc
  request_stream_refused (ok (other, record_type, data') ∷ requests) rest node_type raw_data e done
        d s h =
      let x = process_pcap_extract decode_filters sends packet_sources data' in
      let started =
        start_stream (process_pcap_extract decode_filters sends packet_sources) decode_hog
          decode_crusher conn_source other record_type data' in
      let now = ok (other, record_type, data') ∷ requests in
      let later = done ++ extracted x ∷ [] in
      let later' = done ++ started ∷ [] in
      elim (Bool-cases (is_pcap record_type)) [
        | inl p ↦ elim (Outcome-cases x.result) [
          | inl (x', q) ↦
              let n : run now done ≡ (some (err x'), later) = rw (run, request_stream, p, q) refl in
              absurd (some-none (sym (ap (λ r. r.0) n) ∙ h))
          | inr (u, q) ↦
              let n : run now done ≡ run requests later = rw (run, request_stream, p, q) refl in
              rw (request_stream, p, q)
                (request_stream_refused requests rest node_type raw_data e later d s
                  (sym (ap (λ r. r.0) n) ∙ h))
        ]
        | inr p ↦
            let n : run now done ≡ run requests later' = rw (run, request_stream, p) refl in
            rw (request_stream, p)
              (request_stream_refused requests rest node_type raw_data e later' d s
                (sym (ap (λ r. r.0) n) ∙ h))
      ]

-- A request for packets that decodes, and whose acknowledgement can be sent, is passed on for
-- exactly those of its filters whose source has a connection, to that connection; the sources'
-- connections stay the same meanwhile.
pub process_pcap_extract_passes :
    (decode_filters : Bytes → Outcome (List PcapFilter)) (sends : Reply → Outcome (Unit {0}))
    (packet_sources : Map ℕ) (filter_data : Bytes) (filters : List PcapFilter) (n : ℕ)
    (filter : PcapFilter)
    → decode_filters filter_data ≡ ok filters
    → sends accepted ≡ ok tt
    → let x = process_pcap_extract decode_filters sends (λ left. packet_sources) filter_data in
      (x.result ≡ ok tt)
      × (In (n, filter) x.passed_on
          ↔ In filter filters × (get filter.source packet_sources ≡ some n))
unfolding process_pcap_extract
process_pcap_extract_passes decode_filters sends packet_sources filter_data filters n filter d s = (
  rw (process_pcap_extract, d, s) refl,
  rw (process_pcap_extract, d, s) (pass_on-In packet_sources filters n filter),
)
