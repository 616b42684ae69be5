-- ===== src/Ingest/Failed.antt =====
-- An event that cannot be sent to the live streams (`handle_data` of src/ingest.rs).
use giganto.Prelude.{◌≡◌, ℕ, refl, Bool, true, false, List, ◌∷◌, String}
use giganto.Bytes.{Bytes}
use giganto.Int64.{ℤ}
use giganto.Outcome.{Outcome, ok, err}
use giganto.Dispatch.{RawEventKind}
use giganto.Ingest.{
  Effect, append, direct, Input, received, Session, ◌>>=◌, ◌>>◌, is_close, perform, act, pause,
  store_event, receive, step, handle_data,
}
use giganto.Ingest.EventKey.{Formats, event_key}

module _ (io : List Effect → Effect → Outcome (Unit {0})) (schedule : ℕ → ℕ) (formats : Formats)
    (kind : RawEventKind) (source key stored : Bytes) (ts : ℤ) (shutdown : Bool) (s : Session)
    (e : String) where
  -- The event is stored, after what the interval task has done before.
  abbrev pub after_append : Session
  after_append = let s' = pause io schedule s in record s' { done = append key stored ts ∷ s'.done }

  module _ (appended : io (pause io schedule s).done (append key stored ts) ≡ ok tt)
      (unsent : io (pause io schedule after_append).done (direct stored ts) ≡ err e) where
    act_appended : act io schedule (append key stored ts) s ≡ (ok tt, after_append)
    unfolding act perform
    act_appended = rw (act, perform, appended) refl

    act_unsent :
        act io schedule (direct stored ts) after_append ≡ (err e, pause io schedule after_append)
    unfolding act perform
    act_unsent = rw (act, perform, unsent) refl

    store_event_unsent :
        store_event io schedule formats kind source true key stored ts shutdown s
        ≡ (err e, pause io schedule after_append)
    unfolding store_event ◌>>=◌ ◌>>◌
    store_event_unsent =
        rw (store_event, ◌>>◌, ◌>>=◌, act_appended)
          (rw act_appended (rw (◌>>◌, ◌>>=◌, act_unsent) (rw act_unsent refl)))

    receive_unsent :
        (raw : Bytes)
        → is_close raw ts ≡ false
        → event_key formats kind source raw ts ≡ ok (key, stored)
        → receive io schedule formats kind source true raw ts shutdown s
          ≡ (err e, pause io schedule after_append)
    unfolding receive ◌>>=◌
    receive_unsent raw open_channel known = rw (open_channel, known) store_event_unsent

    -- The event is stored, and the loop ends with the error without having counted or acknowledged
    -- it; the interval task goes on.
    pub handle_data_unsent :
        (raw : Bytes) (inputs : List Input)
        → is_close raw ts ≡ false
        → event_key formats kind source raw ts ≡ ok (key, stored)
        → handle_data io schedule formats kind source true (received raw ts shutdown ∷ inputs) s
          ≡ (err e, pause io schedule (pause io schedule after_append))
    unfolding handle_data step
    handle_data_unsent raw inputs open_channel known =
        let r = receive_unsent raw open_channel known in rw (handle_data, r) (rw (r) refl)
