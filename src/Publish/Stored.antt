-- ===== src/Publish/Stored.antt =====
-- What a crusher's stream sends of the stored events (`send_stream` of src/publish.rs).
use mathlib.Core.List.{append-nil, append_assoc}
use giganto.Prelude.{
  ◌-◌, ◌≡◌, sym, ap, ◌∙◌, Bool, true, false, Option, none, some, List, [], ◌∷◌, ◌++◌, map, select,
  length, drop, leb, All, Bool-cases, inl, inr,
}
use giganto.Bytes.{Bytes}
use giganto.Int64.{ℤ, pos, from_be_bytes}
use giganto.Outcome.{Outcome, ok}
use giganto.Chrono.{Chrono}
use giganto.Key.{
  builder, start_key, mid_key, build, lower_closed_bound_end_key, upper_open_bound_end_key,
}
use giganto.Store.{Entry, RawEventStore, Scans}
use giganto.Iter.{decode}
use giganto.Iter.Range.{between, boundary_iter-forward}
use giganto.Filter.{IpAddr}
use giganto.Publish.{Sent, both, send_stored, send_crusher_stored}
use giganto.Publish.Channel.{RequestCrusherStream, filter_ip}
use giganto.Publish.Range.{sends, message}

module _ {T : Type 0} (addrs : T → Option IpAddr × Option IpAddr) (msg : RequestCrusherStream) where
  -- An event with both addresses, behind a key that ends with a timestamp.
  abbrev pub Sendable : Bytes × T → Type 0
  Sendable item =
      (leb 8 (length item.0) ≡ true)
      × ((a : IpAddr × IpAddr) × (both (addrs item.1).0 (addrs item.1).1 ≡ some a))

  -- Whether the policy's addresses admit an event.
  abbrev pub wanted : Bytes × T → Bool
  wanted item = elim (both (addrs item.1).0 (addrs item.1).1) [
    | none ↦ false
    | some a ↦ filter_ip msg.src_ip msg.dst_ip a.0 a.1
  ]

  -- The timestamp of the last event, if there is one.
  abbrev pub last_time : ℤ → List (Bytes × T) → ℤ
  last_time ts [] = ts
  last_time ts (item ∷ items) = last_time (from_be_bytes (drop (length item.0 - 8) item.0)) items

  send_stored_lem :
      (source : Bytes) (items : List (Bytes × T)) (ts : ℤ) (sent : List (Sent T))
      → All Sendable items
      → send_stored sends addrs msg source (map ok items) ts sent ≡ (
        ok (last_time ts (select wanted items)),
        sent ++ map (message source) (select wanted items),
      )
  unfolding send_stored
  send_stored_lem source [] ts sent h = ap (λ l. (ok ts, l)) (sym (append-nil sent))
  send_stored_lem source ((key, val) ∷ items) ts sent ((long, (a, e)), h) =
      let t = from_be_bytes (drop (length key - 8) key) in
      let m = message source (key, val) in
      elim (Bool-cases (filter_ip msg.src_ip msg.dst_ip a.0 a.1)) [
        | inl f ↦
            let w : wanted (key, val) ≡ true = rw (wanted, e) f in
            rw (w, send_stored, e, f, long)
              (send_stored_lem source items t (sent ++ m ∷ []) h
                ∙ ap (λ l. (ok (last_time t (select wanted items)), l))
                    (append_assoc sent (m ∷ []) (map (message source) (select wanted items))))
        | inr f ↦
            let w : wanted (key, val) ≡ false = rw (wanted, e) f in
            rw (w, send_stored, e, f) (send_stored_lem source items ts sent h)
      ]

  -- On a network on which every message is sent, from a store that is read without errors, and
  -- where the stored events of the policy's source from its start on decode, have both addresses
  -- and keys of at least eight bytes, a crusher is sent exactly those that the policy's
  -- addresses admit, in the order of their keys, each with the timestamp of its key; the time
  -- from which live events follow is that of the last event sent, or 0.
  pub send_crusher_stored-sends :
      (c : Chrono) (deserialize : Bytes → Outcome T) (store : RawEventStore) (entries : List Entry)
      (kind : Option Bytes) (source : Bytes) (items : List (Bytes × T))
      → Scans store entries
      → msg.source ≡ some source
      → map (decode deserialize) (
          between
            (build (
              lower_closed_bound_end_key c
                (mid_key (start_key builder source) kind)
                (some (c.timestamp_nanos msg.start))))
            (build (upper_open_bound_end_key c (mid_key (start_key builder source) kind) none))
            entries)
        ≡ map ok items
      → All Sendable items
      → send_crusher_stored sends c deserialize addrs store msg kind
        ≡ (ok (last_time (pos 0) (select wanted items)), map (message source) (select wanted items))
  unfolding send_crusher_stored
  send_crusher_stored-sends c deserialize store entries kind source items scans named decodes h =
      let b = mid_key (start_key builder source) kind in
      let from = build (lower_closed_bound_end_key c b (some (c.timestamp_nanos msg.start))) in
      let to = build (upper_open_bound_end_key c b none) in
      rw
        (
          send_crusher_stored,
          named,
          boundary_iter-forward deserialize store entries from to scans,
          decodes,
        )
        (send_stored_lem source items (pos 0) [] h)
