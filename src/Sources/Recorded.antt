-- ===== src/Sources/Recorded.antt =====
-- Which sources `check_sources_conn` (src/ingest.rs) holds, and that each is in the store.
use giganto.Prelude.{
  or_later, ◌≡◌, ◌||◌, refl, sym, ◌∙◌, All, Bool, true, false, List, [], ◌∷◌, if◌then◌else◌,
  Bool-cases, inl, inr, arith, ap,
}
use giganto.Bytes.{Bytes}
use giganto.Int64.{ℤ}
use giganto.Store.{equals}
use giganto.Store.Sorted.{equals_refl, equals→eq}
use giganto.Sources.Maps.{contains_key, remove-same, remove-other, insert_lem}
use giganto.Sources.{
  Map, insert, keys, connected, disconnected, SourceState, Event, tick, source_info, append_source,
  refresh, handle_event, check_sources_conn,
}

-- Every connected source is in the store of sources.
abbrev pub Recorded : SourceState → Type 0
Recorded s =
    (name : Bytes) → contains_key name s.sources ≡ true → contains_key name s.source_store ≡ true

-- A store that takes every entry.
abbrev pub takes : Map ℤ → Bytes → Bool
takes m name = true

abbrev pub Known : SourceState → List Bytes → Type 0
Known s names = All (λ name. contains_key name s.sources ≡ true) names

-- Connecting a known source again changes nothing in which sources are known.
insert_known {ℓ} :
    {V : Type ℓ} (name other : Bytes) (v : V) (m : Map V)
    → contains_key name m ≡ true
    → contains_key other (insert name v m) ≡ contains_key other m
insert_known name other v m h = insert_lem name other v m ∙ elim (Bool-cases (equals name other)) [
  | inl p ↦ (let q = equals→eq name other p in rw (p, sym q, h) refl)
  | inr p ↦ rw p refl
]

Known-insert :
    (names : List Bytes) (s s' : SourceState)
    → ((other : Bytes) → contains_key other s'.sources ≡ contains_key other s.sources)
    → Known s names
    → Known s' names
Known-insert [] s s' e h = tt
Known-insert (name ∷ names) s s' e h = (e name ∙ h.0, Known-insert names s s' e h.1)

append_source-sources :
    (stores : Map ℤ → Bytes → Bool) (name : Bytes) (ts : ℤ) (s : SourceState)
    → (append_source stores name ts s).sources ≡ s.sources
unfolding append_source
append_source-sources stores name ts s = ground arith

refresh_lem :
    (stores : Map ℤ → Bytes → Bool) (now : Bytes → ℤ) (names : List Bytes) (s : SourceState)
    (other : Bytes)
    → Known s names
    → contains_key other (refresh stores now names s).sources ≡ contains_key other s.sources
unfolding refresh
refresh_lem stores now [] s other h = refl
refresh_lem stores now (name ∷ names) s other h =
    let s' = append_source stores name (now name) s in
    let next = record s' { sources = insert name (now name) s'.sources } in
    let same = append_source-sources stores name (now name) s in
    let e : (k : Bytes) → contains_key k next.sources ≡ contains_key k s.sources =
      λ k. rw same (insert_known name k (now name) s.sources h.0) in
    refresh_lem stores now names next other (Known-insert names s next e h.1) ∙ e other

keys_within {ℓ} :
    {V : Type ℓ} (m m' : Map V)
    → ((k : Bytes) → contains_key k m ≡ true → contains_key k m' ≡ true)
    → All (λ name. contains_key name m' ≡ true) (keys m)
keys_within [] m' f = tt
keys_within (e ∷ m) m' f = (
  f e.0 (rw (equals_refl e.0) refl),
  keys_within m m' (λ k h. f k (or_later (equals e.0 k) (contains_key k m) h)),
)

keys-Known : (s : SourceState) → Known s (keys s.sources)
keys-Known s = keys_within s.sources s.sources (λ k h. h)

-- The connections and disconnections that are not a report of the source, the last of which decides.
abbrev pub connected_after : Bytes → List Event → Bool → Bool
connected_after name [] b = b
connected_after name (tick now ∷ events) b = connected_after name events b
connected_after name (source_info other ts state rep ∷ events) b = connected_after name events (
    if rep
    then b
    else if equals other name
    then elim state [ connected ↦ true | disconnected ↦ false ]
    else b)

or_mono : (a b c : Bool) → (b ≡ true → c ≡ true) → (a || b) ≡ true → (a || c) ≡ true
or_mono true b c f h = refl
or_mono false b c f h = f h

or_if : (a b : Bool) → (a || b) ≡ (if a then true else b)
or_if true b = refl
or_if false b = refl

module _ (stores : Map ℤ → Bytes → Bool) where
  handle_event_lem :
      (e : Event) (s : SourceState) (name : Bytes)
      → contains_key name (handle_event stores e s).sources
        ≡ connected_after name (e ∷ []) (contains_key name s.sources)
  unfolding handle_event
  handle_event_lem (tick now) s name = refresh_lem stores now (keys s.sources) s name (keys-Known s)
  handle_event_lem (source_info other ts connected true) s name =
      ap (λ m. contains_key name m) (append_source-sources stores other ts s)
  handle_event_lem (source_info other ts connected false) s name =
      rw (append_source-sources stores other ts s) (
        insert_lem other name ts s.sources
        ∙ or_if (equals other name) (contains_key name s.sources))
  handle_event_lem (source_info other ts disconnected true) s name =
      ap (λ m. contains_key name m) (append_source-sources stores other ts s)
  handle_event_lem (source_info other ts disconnected false) s name =
      rw (append_source-sources stores other ts s) (elim (Bool-cases (equals other name)) [
        | inl p ↦ rw (p, equals→eq other name p) (remove-same name s.sources)
        | inr p ↦ rw p (remove-other other name s.sources p)
      ])

  connected_after-step :
      (e : Event) (events : List Event) (name : Bytes) (b : Bool)
      → connected_after name events (connected_after name (e ∷ []) b)
        ≡ connected_after name (e ∷ events) b
  connected_after-step (tick now) events name b = refl
  connected_after-step (source_info other ts state rep) events name b = refl

  -- After any sequence of events a source is connected exactly if the last of its connections and
  -- disconnections that is not a report is a connection, or, where there is none, if it was
  -- connected before; what the store of sources does with its entries does not matter.
  pub check_sources_conn-connected :
      (events : List Event) (s : SourceState) (name : Bytes)
      → contains_key name (check_sources_conn stores events s).sources
        ≡ connected_after name events (contains_key name s.sources)
  unfolding check_sources_conn
  check_sources_conn-connected [] s name = refl
  check_sources_conn-connected (e ∷ events) s name =
      check_sources_conn-connected events (handle_event stores e s) name
      ∙ ap (connected_after name events) (handle_event_lem e s name)
      ∙ connected_after-step e events name (contains_key name s.sources)

refresh_store :
    (now : Bytes → ℤ) (names : List Bytes) (s : SourceState) (other : Bytes)
    → contains_key other s.source_store ≡ true
    → contains_key other (refresh takes now names s).source_store ≡ true
unfolding refresh append_source
refresh_store now [] s other h = h
refresh_store now (name ∷ names) s other h =
    let s' = append_source takes name (now name) s in
    refresh_store now names (record s' { sources = insert name (now name) s'.sources }) other
      (insert_lem name other (now name) s.source_store
        ∙ or_later (equals name other) (contains_key other s.source_store) h)

Recorded-event : (e : Event) (s : SourceState) → Recorded s → Recorded (handle_event takes e s)
unfolding handle_event append_source
Recorded-event (tick now) s h name c =
    refresh_store now (keys s.sources) s name
      (h name (sym (refresh_lem takes now (keys s.sources) s name (keys-Known s)) ∙ c))
Recorded-event (source_info other ts connected true) s h name c =
    insert_lem other name ts s.source_store
    ∙ or_later (equals other name) (contains_key name s.source_store) (h name c)
Recorded-event (source_info other ts connected false) s h name c =
    let k : (equals other name || contains_key name s.sources) ≡ true =
      sym (insert_lem other name ts s.sources) ∙ c in
    let f = h name in
    insert_lem other name ts s.source_store
    ∙ or_mono (equals other name) (contains_key name s.sources) (contains_key name s.source_store) f
        k
Recorded-event (source_info other ts disconnected true) s h name c =
    insert_lem other name ts s.source_store
    ∙ or_later (equals other name) (contains_key name s.source_store) (h name c)
Recorded-event (source_info other ts disconnected false) s h name c =
    insert_lem other name ts s.source_store ∙ elim (Bool-cases (equals other name)) [
      | inl p ↦ rw p refl
      | inr p ↦
          or_later (equals other name) (contains_key name s.source_store)
            (h name (sym (remove-other other name s.sources p) ∙ c))
    ]

-- Where the store takes every entry, and every connected source is in the store of sources at
-- first, every connected source is in it after any sequence of events.
pub check_sources_conn-Recorded :
    (events : List Event) (s : SourceState)
    → Recorded s
    → Recorded (check_sources_conn takes events s)
unfolding check_sources_conn
check_sources_conn-Recorded [] s h = h
check_sources_conn-Recorded (e ∷ events) s h =
    check_sources_conn-Recorded events (handle_event takes e s) (Recorded-event e s h)
