-- ===== src/Ingest/Acks.antt =====
-- What `handle_data` (src/ingest.rs) acknowledges: only what is stored.
use giganto.Prelude.{Bool-cases, ℕ, ◌≡◌, inl, inr, refl, sym, ◌∙◌, Bool, List, [], ◌∷◌}
use giganto.Bytes.{Bytes}
use giganto.Int64.{ℤ}
use giganto.Outcome.{Outcome, ok, err, Outcome-cases}
use giganto.Dispatch.{RawEventKind}
use giganto.Ingest.EventKey.{Formats, event_key}
use giganto.Ingest.{
  Effect, append, ack, flush, Input, received, finished_early, recv_error, Session, start, Flow,
  next, stop, Task, ◌>>=◌, ◌>>◌, pure, lift, is_close, perform, pause, act, abort, store_event,
  receive, step, handle_data,
}
use giganto.Ingest.Kept.{
  Stored, AcksStored, Inv, Stored-grows, close_timestamp, failed, Keeps, pause-Good, pure-Keeps,
  act-Keeps, abort-Keeps, >>-Keeps, Stored-Keeps,
}

module _ (io : List Effect → Effect → Outcome (Unit {0})) (schedule : ℕ → ℕ) (formats : Formats)
    (kind : RawEventKind) (source : Bytes) (has_network_key : Bool) where
  abbrev Any : List Effect → Type 0
  Any done = Unit

  grows_any : (e : Effect) (done : List Effect) → Any done → Any (e ∷ done)
  grows_any e done h = tt

  abbrev Sound : {A : Type 0} → Task A → Type 0
  Sound m = (s : Session) → Inv s → Inv (m s).1

  sound : {A : Type 0} (m : Task A) → Keeps io schedule Any grows_any m → Sound m
  sound m k s h = (k s (h, tt)).0

  appended :
      (key raw : Bytes) (ts : ℤ) (s : Session) (u : Unit {0})
      → (act io schedule (append key raw ts) s).0 ≡ ok u
      → Stored ts (act io schedule (append key raw ts) s).1.done
  unfolding act perform
  appended key raw ts s u h =
      elim (Outcome-cases (io (pause io schedule s).done (append key raw ts))) [
        | inl (m, q) ↦ absurd (failed m u (sym (rw (act, perform, q) refl) ∙ h))
        | inr (v, q) ↦ rw (act, perform, q) (inl refl)
      ]

  store_event-Sound :
      (key raw : Bytes) (ts : ℤ) (shutdown : Bool)
      → Sound (store_event io schedule formats kind source has_network_key key raw ts shutdown)
  unfolding store_event ◌>>=◌ ◌>>◌
  store_event-Sound key raw ts shutdown s h =
      let before =
        sound (act io schedule (append key raw ts))
          (act-Keeps io schedule Any grows_any (append key raw ts) (λ d h. tt)) s h in
      elim (Outcome-cases (act io schedule (append key raw ts) s).0) [
        | inl (m, q) ↦ rw (store_event, ◌>>◌, ◌>>=◌, q) before
        | inr (u, q) ↦
            rw (store_event, ◌>>◌, ◌>>=◌, q)
              (Stored-Keeps io schedule (Stored ts) (Stored-grows ts) has_network_key raw ts
                shutdown (λ d h. h) (act io schedule (append key raw ts) s).1
                (before, appended key raw ts s u q)).0
      ]

  receive-Sound :
      (raw : Bytes) (ts : ℤ) (shutdown : Bool)
      → Sound (receive io schedule formats kind source has_network_key raw ts shutdown)
  unfolding receive
  receive-Sound raw ts shutdown s h = elim (Bool-cases (is_close raw ts)) [
    | inl e ↦ rw e (
        sound (act io schedule (ack ts) >> pure next)
          (>>-Keeps io schedule Any grows_any (act io schedule (ack ts)) (pure next)
            (act-Keeps io schedule Any grows_any (ack ts) (λ d h. inl (close_timestamp raw ts e)))
            (pure-Keeps io schedule Any grows_any next))
          s h)
    | inr e ↦ rw e (elim (Outcome-cases (event_key formats kind source raw ts)) [
      | inl (m, q) ↦ rw (◌>>=◌, q) h
      | inr ((key, raw'), q) ↦ rw (◌>>=◌, q) (store_event-Sound key raw' ts shutdown s h)
    ])
  ]

  step-Sound : (i : Input) → Sound (step io schedule formats kind source has_network_key i)
  unfolding step
  step-Sound (received raw ts shutdown) = receive-Sound raw ts shutdown
  step-Sound finished_early = sound (abort io schedule >> pure stop) (
      >>-Keeps io schedule Any grows_any (abort io schedule) (pure stop)
        (abort-Keeps io schedule Any grows_any) (pure-Keeps io schedule Any grows_any stop))
  step-Sound recv_error =
      sound {A = Flow} (act io schedule flush >> (abort io schedule >> lift (err "handle error"))) (
        >>-Keeps io schedule Any grows_any {B = Flow} (act io schedule flush)
          (abort io schedule >> lift (err "handle error"))
          (act-Keeps io schedule Any grows_any flush (λ d h. tt))
          (>>-Keeps io schedule Any grows_any {B = Flow} (abort io schedule)
            (lift (err "handle error")) (abort-Keeps io schedule Any grows_any) (λ s g. g)))

  pause-Sound : (s : Session) → Inv s → Inv (pause io schedule s)
  pause-Sound s h = (pause-Good io schedule Any grows_any s (h, tt)).0

  handle_data-Sound :
      (inputs : List Input)
      → Sound (handle_data io schedule formats kind source has_network_key inputs)
  unfolding handle_data
  handle_data-Sound [] s h = pause-Sound s h
  handle_data-Sound (i ∷ inputs) s h =
      let after = step-Sound i s h in
      let r = step io schedule formats kind source has_network_key i s in
      elim (Outcome-cases r.0) [
        | inl (m, q) ↦ rw (handle_data, q) (pause-Sound r.1 after)
        | inr (next, q) ↦ rw (handle_data, q) (handle_data-Sound inputs r.1 after)
        | inr (stop, q) ↦
            rw (handle_data, q)
              (pause-Sound _ (
                sound (act io schedule flush)
                  (act-Keeps io schedule Any grows_any flush (λ d h. tt)) r.1 after))
      ]

  -- Whatever arrives and whatever fails, and whenever the interval task runs, also behind an error
  -- that ends the loop, every acknowledgement has the timestamp of an event that was stored before
  -- it, or that of a message that closes the channel.
  pub handle_data-AcksStored :
      (inputs : List Input)
      → AcksStored (handle_data io schedule formats kind source has_network_key inputs start).1.done
  handle_data-AcksStored inputs =
      (handle_data-Sound inputs start
        (record { sound = tt; current = inl refl; pending = tt })).sound
