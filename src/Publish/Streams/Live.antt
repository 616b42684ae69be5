-- ===== src/Publish/Streams/Live.antt =====
-- What a subscriber is sent of the events as they arrive (`send_stream` with `send_direct_stream` of
-- src/publish.rs).
use mathlib.Core.List.{append_assoc, append-nil, reverse-reverse}
use giganto.Prelude.{
  ◌≡◌, ◌⊎◌, ◌<◌, ◌^◌, false, refl, sym, ap, ◌∙◌, ℕ, ◌+◌, Bool, true, not, some, List, [], ◌∷◌, ◌++◌,
  map, select, reverse, length, length-append, length-reverse, take, take-append, leb, All, arith,
  Bool-cases, inl, inr, if◌then◌else◌,
}
use giganto.Bytes.{Bytes, to_be}
use giganto.Filter.{contains}
use giganto.Int64.{ℤ, InI64, to_be_bytes, length-to_be_bytes, from_be_bytes-to_be_bytes}
use giganto.Outcome.{Outcome, ok}
use giganto.Sources.{Map}
use giganto.Publish.Channel.{NetworkKey, subscribed, send_direct_stream}
use giganto.Publish.Direct.{payload, send_direct_stream-sends}
use giganto.Publish.Streams.{buffer_time, is_after, send_live}

-- An event as it arrives.
pub record Arrival : Type 0 where
  pub key : NetworkKey
  pub raw_event : Bytes
  pub timestamp : ℤ
  pub source : Bytes

long_enough : (n m : ℕ) → n ≡ 8 + m → leb 8 n ≡ true
long_enough n m h = ground arith

buffer_time_lem :
    (ts : ℤ) (rest : Bytes) → InI64 ts → buffer_time (reverse (to_be_bytes ts) ++ rest) ≡ some ts
buffer_time_lem ts rest h =
    let t = reverse (to_be_bytes ts) in
    let eight : length t ≡ 8 = length-reverse (to_be_bytes ts) ∙ length-to_be_bytes ts in
    let n : length (t ++ rest) ≡ 8 + length rest = length-append t rest ∙ omega (arith, eight) in
    let front : take 8 (t ++ rest) ≡ t =
      ap (λ k. take k (t ++ rest)) (sym eight) ∙ take-append t rest in
    rw
      (
        long_enough _ (length rest) n,
        front,
        reverse-reverse (to_be_bytes ts),
        from_be_bytes-to_be_bytes ts h,
      )
      refl

module _ (hog : Bytes) (serialize : Bytes → Outcome Bytes) (req_key : Bytes) where
  -- What `send_direct_stream` hands to the channel of a subscription, the event's turn with no
  -- receiver gone.
  abbrev pub handed_one : Arrival → List Bytes
  handed_one a =
      map (λ m. m.1)
        (send_direct_stream hog serialize (λ k. false) a.key a.raw_event a.timestamp a.source
          (req_key ∷ [])).1

  abbrev pub handed : List Arrival → List Bytes
  handed [] = []
  handed (a ∷ events) = handed_one a ++ handed events

  -- The timestamp is in range, the source's name serializes, and the lengths fit in 32 bits.
  abbrev pub Sendable : Arrival → Type 0
  Sendable a =
      InI64 a.timestamp
      × ((source_bytes : Bytes) × (serialize a.source ≡ ok source_bytes)
          × (length source_bytes < 2 ^ 32))
      × (length a.raw_event < 2 ^ 32)

  payload-time :
      (raw : Bytes) (ts : ℤ) (source_bytes : Bytes)
      → InI64 ts
      → buffer_time (payload hog serialize raw ts source_bytes req_key) ≡ some ts
  payload-time raw ts source_bytes h =
      let a = reverse (to_be_bytes ts) in
      let p =
        if contains req_key hog
        then reverse (to_be 4 (length source_bytes)) ++ source_bytes
        else [] in
      let q = reverse (to_be 4 (length raw)) in
      let e : a ++ p ++ q ++ raw ≡ a ++ (p ++ q ++ raw) =
        ap (λ l. l ++ raw) (append_assoc a p q) ∙ append_assoc a (p ++ q) raw in
      ap buffer_time e ∙ buffer_time_lem ts (p ++ q ++ raw) h

  -- Whether an event is not older than a time.
  abbrev pub recent : ℤ → Arrival → Bool
  recent last_ts a = not (is_after last_ts a.timestamp)

  -- An event is handed over as one buffer, which has its timestamp, or, where the key does not
  -- subscribe to it, not at all.
  handed_one_lem :
      (a : Arrival)
      → Sendable a
      → (handed_one a ≡ [])
        ⊎ ((buf : Bytes) × (handed_one a ≡ buf ∷ []) × (buffer_time buf ≡ some a.timestamp))
  handed_one_lem a (range, (source_bytes, named, short), short') =
      let e =
        send_direct_stream-sends hog serialize a.key a.raw_event a.timestamp a.source source_bytes
          (req_key ∷ []) named short short' in
      elim (Bool-cases (subscribed a.key req_key)) [
        | inl t ↦ inr (
          payload hog serialize a.raw_event a.timestamp source_bytes req_key,
          rw (e, t) refl,
          payload-time a.raw_event a.timestamp source_bytes range,
        )
        | inr t ↦ inl (rw (e, t) refl)
      ]

  -- Of the events that `send_direct_stream` hands to a subscription, the task of that subscription
  -- sends exactly those that are not older than the time it was started with, in the order of their
  -- arrival and whatever their addresses, as long as sending succeeds. The events have timestamps in
  -- range of `i64`, the names of their sources serialize, and the lengths fit in 32 bits.
  pub send_live-recent :
      (keys : List Bytes) (last_ts : ℤ) (channels : Map ℕ) (events : List Arrival)
      (sent : List Bytes)
      → All Sendable events
      → send_live (λ s b. true) keys last_ts channels (handed events) sent
        ≡ some (sent ++ handed (select (recent last_ts) events), channels)
  unfolding send_live
  send_live-recent keys last_ts channels [] sent h =
      ap (λ l. some (l, channels)) (sym (append-nil sent))
  send_live-recent keys last_ts channels (a ∷ events) sent h = elim (handed_one_lem a h.0) [
    | inl e ↦ elim (Bool-cases (is_after last_ts a.timestamp)) [
      | inl old ↦ rw (e, old) (send_live-recent keys last_ts channels events sent h.1)
      | inr new ↦ rw (e, new, e) (send_live-recent keys last_ts channels events sent h.1)
    ]
    | inr (buf, e, t) ↦ elim (Bool-cases (is_after last_ts a.timestamp)) [
      | inl old ↦ rw (e, send_live, t, old) (send_live-recent keys last_ts channels events sent h.1)
      | inr new ↦
          rw (e, send_live, t, new)
            (send_live-recent keys last_ts channels events (sent ++ buf ∷ []) h.1
              ∙ ap (λ l. some (l, channels))
                  (append_assoc sent (buf ∷ []) (handed (select (recent last_ts) events))
                    ∙ ap (λ l. sent ++ (l ++ handed (select (recent last_ts) events))) (sym e)))
    ]
  ]
