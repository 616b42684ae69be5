-- ===== src/Publish/Direct.antt =====
-- Who is sent an event as it arrives (`send_direct_stream` of src/publish.rs).
use mathlib.Core.List.{append_assoc, append-nil}
use giganto.Prelude.{
  ◌^◌, ◌<◌, ◌≡◌, refl, sym, ap, ◌∙◌, Bool, true, false, ◌&&◌, ◌||◌, any, arith, List, [], ◌∷◌, ◌++◌,
  map, reverse, length, select, if◌then◌else◌, lt→ltb, Bool-cases, inl, inr, ==_of_eq,
}
use giganto.Bytes.{Bytes, to_be}
use giganto.Int64.{ℤ, to_be_bytes}
use giganto.Outcome.{Outcome, ok, err}
use giganto.Filter.{starts_with, contains}
use giganto.Publish.Channel.{NetworkKey, network_key, subscribed, frame, send_direct_stream}

starts_with-append : (p t : Bytes) → starts_with (p ++ t) p ≡ true
starts_with-append [] t = refl
starts_with-append (x ∷ p) t = rw (==_of_eq x x refl) (starts_with-append p t)

contains_prefix : (p t : Bytes) → contains (p ++ t) p ≡ true
unfolding contains
contains_prefix [] [] = refl
contains_prefix [] (x ∷ t) = refl
contains_prefix (x ∷ p) t = let h = starts_with-append (x ∷ p) t in rw h refl

or_true : (b : Bool) → (b || true) ≡ true
or_true true = refl
or_true false = refl

contains-append : (a p t : Bytes) → contains (a ++ p ++ t) p ≡ true
unfolding contains
contains-append [] p t = contains_prefix p t
contains-append (x ∷ a) p t =
    rw (contains-append a p t) (or_true (starts_with (x ∷ (a ++ p ++ t)) p))

-- A subscription to the source `before ++ source` and a kind is sent the events of `source` and
-- that kind, whatever `before` is: with none, its own source's, and else those of another source
-- whose name is the end of its own.
pub subscribed-suffix :
    (role id before source kind : Bytes)
    → subscribed (network_key source kind) (role ++ 0 ∷ id ++ 0 ∷ (before ++ source) ++ 0 ∷ kind)
      ≡ true
unfolding subscribed network_key
subscribed-suffix role id before source kind =
    let h = contains-append (role ++ 0 ∷ id ++ 0 ∷ before) (source ++ 0 ∷ kind) [] in
    let e : role ++ 0 ∷ id ++ 0 ∷ (before ++ source) ++ 0 ∷ kind
        ≡ (role ++ 0 ∷ id ++ 0 ∷ before) ++ (source ++ 0 ∷ kind) ++ [] =
      ap (λ l. l ++ 0 ∷ kind) (sym (append_assoc (role ++ 0 ∷ id) (0 ∷ before) source))
      ∙ append_assoc (role ++ 0 ∷ id ++ 0 ∷ before) source (0 ∷ kind)
      ∙ sym (append-nil (role ++ 0 ∷ id ++ 0 ∷ before ++ (source ++ 0 ∷ kind))) in
    rw (e, h) refl

module _ (hog : Bytes) (serialize : Bytes → Outcome Bytes) where
  -- The bytes of an event for a subscription: the time in little-endian order, for a node whose key
  -- contains the name `hog` the length and the serialized name of the source, then the length of
  -- the event and the event.
  abbrev pub payload : Bytes → ℤ → Bytes → Bytes → Bytes
  payload raw_event timestamp source_bytes req_key =
      reverse (to_be_bytes timestamp)
      ++ (if contains req_key hog
          then reverse (to_be 4 (length source_bytes)) ++ source_bytes
          else [])
      ++ reverse (to_be 4 (length raw_event))
      ++ raw_event

  pub frame_lem :
      (raw_event : Bytes) (timestamp : ℤ) (source source_bytes req_key : Bytes)
      → serialize source ≡ ok source_bytes
      → length source_bytes < 2 ^ 32
      → length raw_event < 2 ^ 32
      → frame hog serialize raw_event timestamp source req_key
        ≡ ok (payload raw_event timestamp source_bytes req_key)
  unfolding frame
  frame_lem raw_event timestamp source source_bytes req_key s l r =
      let l' = lt→ltb (length source_bytes) (2 ^ 32) l in
      let r' = lt→ltb (length raw_event) (2 ^ 32) r in
      elim (Bool-cases (contains req_key hog)) [
        | inl h ↦ rw (h, s, l', r') refl
        | inr h ↦ rw (h, r') refl
      ]

  -- Where no receiver is gone, the source's name serializes and the lengths fit in 32 bits,
  -- exactly the subscriptions whose key contains the event's source key or its key for all
  -- sources are sent the event, once each.
  pub send_direct_stream-sends :
      (key : NetworkKey) (raw_event : Bytes) (timestamp : ℤ) (source source_bytes : Bytes)
      (channels : List Bytes)
      → serialize source ≡ ok source_bytes
      → length source_bytes < 2 ^ 32
      → length raw_event < 2 ^ 32
      → send_direct_stream hog serialize (λ k. false) key raw_event timestamp source channels ≡ (
        ok tt,
        map
            (λ k. (k, payload raw_event timestamp source_bytes k))
            (select (subscribed key) channels),
      )
  unfolding send_direct_stream
  send_direct_stream-sends key raw_event timestamp source source_bytes [] s l r = refl
  send_direct_stream-sends key raw_event timestamp source source_bytes (k ∷ channels) s l r =
      let rest =
        send_direct_stream-sends key raw_event timestamp source source_bytes channels s l r in
      let f = frame_lem raw_event timestamp source source_bytes k s l r in
      elim (Bool-cases (subscribed key k)) [
        | inl h ↦ rw (h, f, rest) refl
        | inr h ↦ rw (h, rest) refl
      ]

  -- One subscription to an event whose receiver is gone makes the sending of it fail, whatever the
  -- others are.
  pub send_direct_stream-closed :
      (closed : Bytes → Bool) (key : NetworkKey) (raw source source_bytes : Bytes) (ts : ℤ)
      (channels : List Bytes)
      → serialize source ≡ ok source_bytes
      → length source_bytes < 2 ^ 32
      → length raw < 2 ^ 32
      → any (λ k. subscribed key k && closed k) channels ≡ true
      → (send_direct_stream hog serialize closed key raw ts source channels).0
        ≡ err "channel closed"
  unfolding send_direct_stream
  send_direct_stream-closed closed key raw source source_bytes ts [] s l r h = cc
  send_direct_stream-closed closed key raw source source_bytes ts (k ∷ channels) s l r h =
      let rest = send_direct_stream-closed closed key raw source source_bytes ts channels s l r in
      let f = frame_lem raw ts source source_bytes k s l r in
      elim (Bool-cases (subscribed key k)) [
        | inr u ↦ rw (send_direct_stream, u) (rest (ground arith))
        | inl u ↦ elim (Bool-cases (closed k)) [
          | inl c ↦ rw (send_direct_stream, u, f, c) refl
          | inr c ↦ rw (send_direct_stream, u, f, c) (rest (ground arith))
        ]
      ]
