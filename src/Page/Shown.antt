-- ===== src/Page/Shown.antt =====
-- From the ingestion to a paged query: the keys that `handle_data` of src/ingest.rs gives to events
-- are in the ranges of the queries for them (`load_connection` of src/graphql.rs).
use giganto.Prelude.{
  All, ℕ, ◌≡◌, ◌≢◌, refl, sym, ap, ◌∙◌, subst, Bool, true, none, some, Ordering, List, [], ◌∷◌,
  ◌++◌, map, length, ◌<◌, ◌≤◌, ◌^◌, arith, inl, inr,
}
use giganto.Bytes.{Bytes, cmp}
use giganto.Chrono.{Chrono}
use giganto.Dispatch.{RawEventKind, log, periodic_time_series, op_log, packet, statistics, secu_log}
use giganto.Ingest.EventKey.{Formats, event_key}
use giganto.Int64.{pos}
use giganto.Iter.{decode}
use giganto.Key.{mid_key, end_key, build}
use giganto.Key.Window.{StartsAt, EndsAt, Between-window}
use giganto.Outcome.{Outcome, ok, bind_ok}
use giganto.Page.{Query, key_builder, lower_key, open_key, page_size}
use giganto.Page.Accepted.{accepted, accepted-cons}
use giganto.Page.Collect.{passing}
use giganto.Page.Connection.{records_in_range}
use giganto.Page.Walk.{walk, walk-records}
use giganto.Search.Found.{In, In-select}
use giganto.Store.{Entry, RawEventStore, Scans, from_key, to_key, at_most}

In-map : {A B : Type 0} (f : A → B) (x : A) (l : List A) → In x l → In (f x) (map f l)
In-map f x [] i = i
In-map f x (y ∷ l) i = elim i [ inl q ↦ inl (ap f q) | inr j ↦ inr (In-map f x l j) ]

at_most_lem : (a b : Bytes) → cmp a b ≢ Ordering.gt → at_most a b ≡ true
at_most_lem a b h = ground arith

passed :
    {T : Type 0} (check : T → Outcome Bool) (rest : List (Outcome (Bytes × T))) (r : Bytes × T)
    (d : Outcome (Bytes × T))
    → d ≡ ok r
    → check r.1 ≡ ok true
    → In r (passing check (d ∷ rest))
passed check rest r d e h =
    subst (λ z. In r (passing check (z ∷ rest))) (sym e) (rw (In, h) (inl refl))

In-accepted :
    {T : Type 0} (check : T → Outcome Bool) (deserialize : Bytes → Outcome T) (k raw : Bytes)
    (v : T) (l : List Entry)
    → In (k, raw) l
    → deserialize raw ≡ ok v
    → check v ≡ ok true
    → In (k, v) (accepted check deserialize l)
unfolding decode
In-accepted check deserialize k raw v [] i d h = i
In-accepted check deserialize k raw v ((k', raw') ∷ l) i d h = elim i [
  | inl q ↦
      let e : decode deserialize (k', raw') ≡ ok (k, v) =
        rw (decode, ap deserialize (sym (ap (λ e. e.1) q)) ∙ d) (ap (λ e. ok (e.0, v)) (sym q)) in
      passed check (map (decode deserialize) l) (k, v) (decode deserialize (k', raw')) e h
  | inr j ↦
      let later = In-accepted check deserialize k raw v l j d h in
      elim (accepted-cons check deserialize (k', raw') l) [
        | inl (w, e) ↦ rw e (inr later)
        | inr e ↦ rw e later
      ]
]

-- What a query must ask for to find an event: the source, for a log its kind too, the identity of a
-- time series, the agent of an operation log, and the kind of a security log. Packets and statistics
-- have keys of their own.
abbrev pub Names :
    {c : Chrono} {T : Type 0} → Formats → Query c T → RawEventKind → Bytes → Bytes → Type 0
Names formats q log source raw =
    (kind : Bytes) × (formats.log_kind raw ≡ ok kind)
    × (q.get_start_key ≡ source)
    × (q.get_mid_key ≡ some kind)
Names formats q periodic_time_series source raw =
    (formats.time_series_id raw ≡ ok q.get_start_key) × (q.get_mid_key ≡ none)
Names formats q op_log source raw =
    (agent : Bytes) × (formats.op_log_agent_name raw ≡ ok agent)
    × (q.get_start_key ≡ agent ++ 64 ∷ source)
    × (q.get_mid_key ≡ none)
Names formats q packet source raw = ⊥
Names formats q statistics source raw = ⊥
Names formats q secu_log source raw =
    (formats.secu_log_kind raw ≡ ok q.get_start_key) × (q.get_mid_key ≡ none)
Names formats q _ source raw = (q.get_start_key ≡ source) × (q.get_mid_key ≡ none)

event_key-Names :
    {c : Chrono} {T : Type 0} (formats : Formats) (base64 : Bytes → Outcome Bytes)
    (deserialize : Bytes → Outcome T) (store : RawEventStore) (q : Query c T) (kind : RawEventKind)
    (source raw key raw' : Bytes) (t : ℕ)
    → Names formats q kind source raw
    → event_key formats kind source raw (pos t) ≡ ok (key, raw')
    → key ≡ build (end_key (key_builder c deserialize base64 store q) (pos t))
unfolding event_key mid_key
event_key-Names formats base64 deserialize store q log source raw key raw' t (k, e, a, b) h =
    rw (a, b) cc
event_key-Names formats base64 deserialize store q periodic_time_series source raw key raw' t (e, b)
      h =
    let (id, p, r) = bind_ok (formats.time_series_id raw) _ (key, raw') h in rw b cc
event_key-Names formats base64 deserialize store q op_log source raw key raw' t (k, e, a, b) h =
    rw (a, b) cc
event_key-Names formats base64 deserialize store q packet source raw key raw' t n h = elim n [ ]
event_key-Names formats base64 deserialize store q statistics source raw key raw' t n h = elim n [ ]
event_key-Names formats base64 deserialize store q secu_log source raw key raw' t (e, b) h =
    let (raw2, p, r) = bind_ok (formats.secu_log_with_source source raw) _ (key, raw') h in
    let (id, p', r') = bind_ok (formats.secu_log_kind raw) _ (key, raw') r in rw b cc
event_key-Names formats base64 deserialize store q _ source raw key raw' t n h = rw (n.0, n.1) cc

module _ (c : Chrono) {T N : Type 0} (deserialize : Bytes → Outcome T)
    (decode : Bytes → Outcome Bytes) (encode : Bytes → Bytes)
    (decodes : (key : Bytes) → decode (encode key) ≡ ok key)
    (from_key_value : Bytes → T → Outcome N) (node : Bytes × T → N) (store : RawEventStore)
    (filter : Query c T) (entries : List Entry) (scans : Scans store entries) (size : ℕ)
    (positive : 0 < page_size (some size)) (formats : Formats) where
  abbrev lo : Bytes
  lo = lower_key c deserialize decode store filter

  abbrev hi : Bytes
  hi = open_key c deserialize decode store filter

  -- An event that stands in the store under the key, and as the value, that the ingestion gives it
  -- is shown to a client that asks for one page after the other, each behind the last cursor of the page
  -- before, until one is empty: the query names its source, or what stands for it in the keys of its
  -- kind, its filter accepts the event, and the event's time, from 1970 on, is in the query's time
  -- range, whose start is absent or from 1970 on and whose end is absent or after it. Packets and statistics
  -- are left out. The store is read without errors and does not change meanwhile, each record in the range can be
  -- converted, a cursor decodes to its key, the pages have a size that is not 0, and more of them may
  -- be asked for than there are records.
  pub walk-event_key :
      (kind : RawEventKind) (source raw key raw' : Bytes) (v : T) (t s e fuel : ℕ)
      → event_key formats kind source raw (pos t) ≡ ok (key, raw')
      → In (key, raw') entries
      → Names formats filter kind source raw
      → deserialize raw' ≡ ok v
      → filter.check v ≡ ok true
      → StartsAt c filter.start s
      → EndsAt c filter.end e
      → s ≤ t
      → t < e
      → t < 2 ^ 63
      → All
          (λ r. from_key_value r.0 r.1 ≡ ok (node r))
          (records_in_range c deserialize decode store filter entries scans)
      → length (records_in_range c deserialize decode store filter entries scans) < fuel
      → (nodes : List N) × (walk c deserialize decode encode from_key_value store filter size fuel
            none
          ≡ some nodes)
        × In (node (key, v)) nodes
  walk-event_key kind source raw key raw' v t s e fuel h i n d a starts ends from to ht converts
        enough =
      let same =
        event_key-Names formats decode deserialize store filter kind source raw key raw' t n h in
      let window =
        (Between-window c (key_builder c deserialize decode store filter) filter.start filter.end s
            e t starts ends ht).1
          (from, to) in
      let inside =
        In-select (to_key hi) (key, raw') _
          (In-select (from_key lo) (key, raw') entries i
            (at_most_lem lo key (subst (λ k. cmp lo k ≢ Ordering.gt) (sym same) window.0)))
          (at_most_lem key hi (subst (λ k. cmp k hi ≢ Ordering.gt) (sym same) window.1)) in
      let shown = In-accepted filter.check deserialize key raw' v _ inside d a in
      let records = records_in_range c deserialize decode store filter entries scans in
      (
        map node records,
        walk-records c deserialize decode encode decodes from_key_value node store filter entries
            scans size positive fuel converts enough,
        In-map node (key, v) records shown,
      )
