-- ===== src/Publish/Range.antt =====
-- What a range request sends (`process_range_data` of src/publish.rs).
use mathlib.Core.List.{append_assoc}
use giganto.Prelude.{
  ℕ, zero, suc, ◌-◌, ◌≡◌, refl, ap, ◌∙◌, Bool, true, none, some, List, [], ◌∷◌, ◌++◌, map, take,
  length, drop, leb, All, if◌then◌else◌,
}
use giganto.Bytes.{Bytes}
use giganto.Int64.{from_be_bytes}
use giganto.Outcome.{Outcome, ok}
use giganto.Chrono.{Chrono}
use giganto.Key.{
  builder, start_key, mid_key, build, lower_closed_bound_end_key, upper_open_bound_end_key,
}
use giganto.Store.{Entry, RawEventStore, Scans}
use giganto.Iter.{decode}
use giganto.Iter.Range.{between, boundary_iter-forward}
use giganto.Publish.{
  RequestRange, Sent, record_data, none_left, finish, send_items, process_range_data,
}

-- A network on which every message is sent.
abbrev pub sends : {T : Type 0} → List (Sent T) → Sent T → Outcome (Unit {0})
sends sent m = ok tt

pub take-map {ℓ κ} :
    {A : Type ℓ} {B : Type κ} (f : A → B) (n : ℕ) (xs : List A)
    → take n (map f xs) ≡ map f (take n xs)
take-map f zero xs = refl
take-map f (suc n) [] = refl
take-map f (suc n) (x ∷ xs) = ap (λ l. f x ∷ l) (take-map f n xs)

-- The message for a record: its value, the timestamp of its key and the source.
abbrev pub message : {T : Type 0} → Bytes → Bytes × T → Sent T
message source (key, val) = record_data val (from_be_bytes (drop (length key - 8) key)) source

module _ {T : Type 0} where
  pub send_items_lem :
      (source : Bytes) (items : List (Bytes × T)) (sent : List (Sent T))
      → All (λ item. leb 8 (length item.0) ≡ true) items
      → send_items sends source (map ok items) sent
        ≡ (ok tt, sent ++ (map (message source) items ++ none_left ∷ finish ∷ []))
  unfolding send_items
  send_items_lem source [] sent h =
      ap (λ l. (ok tt, l)) (append_assoc sent (none_left ∷ []) (finish ∷ []))
  send_items_lem source ((key, val) ∷ items) sent h =
      let m = message source (key, val) in
      rw (send_items, h.0)
        (send_items_lem source items (sent ++ m ∷ []) h.1
          ∙ ap (λ l. (ok tt, l))
              (append_assoc sent (m ∷ []) (map (message source) items ++ none_left ∷ finish ∷ [])))

module _ (c : Chrono) {T : Type 0} (deserialize : Bytes → Outcome T) where
  -- The stored entries that a request asks for.
  abbrev pub requested : RequestRange → Bool → List Entry → List Entry
  requested msg availed_kind entries =
      let key_builder =
        mid_key (start_key builder msg.source) (if availed_kind then some msg.kind else none) in
      take msg.count (
        between
          (build (lower_closed_bound_end_key c key_builder (some (c.timestamp_nanos msg.start))))
          (build (upper_open_bound_end_key c key_builder (some (c.timestamp_nanos msg.end))))
          entries)

  -- On a network on which every message is sent, from a store that is read without errors, and
  -- where the entries asked for decode and their keys have at least eight bytes, the request is
  -- answered with the first `count` entries between the bounds of its times, in the order of
  -- their keys, each with the timestamp of its key, and then the end mark and the end of the
  -- stream.
  pub process_range_data-sends :
      (store : RawEventStore) (entries : List Entry) (msg : RequestRange) (availed_kind : Bool)
      (items : List (Bytes × T))
      → Scans store entries
      → map (decode deserialize) (requested msg availed_kind entries) ≡ map ok items
      → All (λ item. leb 8 (length item.0) ≡ true) items
      → process_range_data sends c deserialize store msg availed_kind
        ≡ (ok tt, map (message msg.source) items ++ none_left ∷ finish ∷ [])
  unfolding process_range_data
  process_range_data-sends store entries msg availed_kind items scans decodes long =
      let key_builder =
        mid_key (start_key builder msg.source) (if availed_kind then some msg.kind else none) in
      let from =
        build (lower_closed_bound_end_key c key_builder (some (c.timestamp_nanos msg.start))) in
      let to = build (upper_open_bound_end_key c key_builder (some (c.timestamp_nanos msg.end))) in
      ap (λ l. send_items sends msg.source (take msg.count l) [])
        (boundary_iter-forward deserialize store entries from to scans)
      ∙ ap (λ l. send_items sends msg.source l [])
          (take-map (decode deserialize) msg.count (between from to entries) ∙ decodes)
      ∙ send_items_lem msg.source items [] long
