-- ===== src/Ingest.antt =====
-- `handle_data` of src/ingest.rs: what one stream of events writes, and when it acknowledges. The
-- network, the store and `bincode` are parameters: what happened so far decides whether the next
-- action succeeds. The interval task runs concurrently: between any two actions of the loop, and
-- behind its end unless it was aborted, it takes as many of its own steps as a schedule says.
pub mod EventKey
pub mod Kept
pub mod Acks
pub mod Stored
pub mod Failed
use giganto.Prelude.{
  ℕ, zero, suc, ◌+◌, ◌%◌, ◌^◌, Bool, true, false, ◌&&◌, Option, none, some, List, [], ◌∷◌, leb,
  if◌then◌else◌, Ordering, String,
}
use giganto.Bytes.{Bytes}
use giganto.Int64.{ℤ, pos, negsuc, cmp_ℤ}
use giganto.Outcome.{Outcome, ok, err}
use giganto.Store.{equals}
use giganto.Dispatch.{RawEventKind}
use EventKey.{Formats, event_key}

abbrev pub ack_rotation_cnt : ℕ
ack_rotation_cnt = 1024

-- "channel done"
abbrev pub channel_close_message : Bytes
channel_close_message = 99 ∷ 104 ∷ 97 ∷ 110 ∷ 110 ∷ 101 ∷ 108 ∷ 32 ∷ 100 ∷ 111 ∷ 110 ∷ 101 ∷ []

abbrev pub channel_close_timestamp : ℤ
channel_close_timestamp = negsuc 0

abbrev pub no_timestamp : ℤ
no_timestamp = pos 0

-- What the task does to the world. `append` also carries the timestamp of its event.
pub data Effect : Type 0 where
  append : Bytes → Bytes → ℤ → Effect
  direct : Bytes → ℤ → Effect
  ack : ℤ → Effect
  flush : Effect

pub data Input : Type 0 where
  -- an event, its timestamp, and the shutdown signal as it is after the event
  received : Bytes → ℤ → Bool → Input
  finished_early recv_error : Input

-- Where the interval task is: it waits for the interval, it has loaded a timestamp that is not the
-- one for none, or it has acknowledged it and has still to reset the counter.
pub data Turn : Type 0 where
  waiting : Turn
  loaded : ℤ → Turn
  acknowledged : Turn

-- The newest effect is the first of `done`; `clock` counts the actions of the loop.
pub record Session : Type 0 where
  pub done : List Effect
  pub ack_cnt : ℕ
  pub ack_time : ℤ
  -- the interval task runs
  pub interval : Bool
  pub turn : Turn
  pub clock : ℕ

abbrev pub start : Session
start = record {
  done = [];
  ack_cnt = 0;
  ack_time = no_timestamp;
  interval = true;
  turn = waiting;
  clock = 0;
}

abbrev pub Task {ℓ} : Type ℓ → Type ℓ
Task A = Session → Outcome A × Session

infixl 5 ◌>>=◌ ◌>>◌
unfoldable pub ◌>>=◌ {ℓ κ} : {A : Type ℓ} {B : Type κ} → Task A → (A → Task B) → Task B
◌>>=◌ m f s = let (r, s') = m s in elim r [ ok a ↦ f a s' | err e ↦ (err e, s') ]

unfoldable pub ◌>>◌ {ℓ κ} : {A : Type ℓ} {B : Type κ} → Task A → Task B → Task B
unfolding ◌>>=◌
m >> k = m >>= λ _. k

-- How an event leaves the loop: `continue`, `break`.
pub data Flow : Type 0 where
  next stop : Flow

abbrev pub pure {ℓ} : {A : Type ℓ} → A → Task A
pure a s = (ok a, s)

abbrev pub lift {ℓ} : {A : Type ℓ} → Outcome A → Task A
lift r s = (r, s)

abbrev pub is_close : Bytes → ℤ → Bool
is_close raw ts = elim (cmp_ℤ ts channel_close_timestamp) [
  | Ordering.eq ↦ equals raw channel_close_message
  | _ ↦ false
]

module _ (io : List Effect → Effect → Outcome (Unit {0})) where
  -- An action that fails has no effect.
  unfoldable pub perform : Effect → Task (Unit {0})
  perform e s = elim (io s.done e) [
    | ok u ↦ (ok tt, record s { done = e ∷ s.done })
    | err m ↦ (err m, s)
  ]

  -- One step of the interval task, which ends when an acknowledgement fails.
  unfoldable pub interval_step : Session → Session
  unfolding perform
  interval_step s = elim s.interval [
    | false ↦ s
    | true ↦ elim s.turn [
      | waiting ↦ elim (cmp_ℤ s.ack_time no_timestamp) [
        | Ordering.eq ↦ s
        | _ ↦ record s { turn = loaded s.ack_time }
      ]
      | loaded ts ↦
          (let (r, s') = perform (ack ts) s in
            elim r [
              | ok u ↦ record s' { turn = acknowledged }
              | err e ↦ record s' { interval = false }
            ])
      | acknowledged ↦ record s { turn = waiting; ack_cnt = 0 }
    ]
  ]

  unfoldable pub interval_steps : ℕ → Session → Session
  unfolding interval_step
  interval_steps zero s = s
  interval_steps (suc n) s = interval_steps n (interval_step s)

  -- The steps of the interval task before the next action of the loop.
  unfoldable pub pause : (ℕ → ℕ) → Session → Session
  unfolding interval_steps
  pause schedule s = interval_steps (schedule s.clock) (record s { clock = s.clock + 1 })

module _ (io : List Effect → Effect → Outcome (Unit {0})) (schedule : ℕ → ℕ) where
  -- An action of the loop.
  unfoldable pub act : Effect → Task (Unit {0})
  unfolding perform pause
  act e s = perform io e (pause io schedule s)

  unfoldable pub update : (Session → Session) → Task (Unit {0})
  unfolding pause
  update f s = (ok tt, f (pause io schedule s))

  -- The acknowledgement of every 1024th event.
  unfoldable pub rotate : ℤ → Task (Unit {0})
  unfolding act update pause ◌>>=◌ ◌>>◌
  rotate ts s =
      let s' = pause io schedule s in
      if leb ack_rotation_cnt s'.ack_cnt
      then (do act (ack ts); update (λ s. record s { ack_cnt = 0 }); act flush) s'
      else (ok tt, s')

  -- `handler.abort()`
  abbrev pub abort : Task (Unit {0})
  abort = update (λ s. record s { interval = false })

  module _ (formats : Formats) (kind : RawEventKind) (source : Bytes) (has_network_key : Bool) where
    -- An event whose key is known.
    unfoldable pub store_event : Bytes → Bytes → ℤ → Bool → Task Flow
    unfolding act update rotate ◌>>=◌ ◌>>◌
    store_event key raw ts shutdown = do
      act (append key raw ts)
      if has_network_key then act (direct raw ts) else pure tt
      update (λ s. record s { ack_cnt = (s.ack_cnt + 1) % 2 ^ 16 })
      update (λ s. record s { ack_time = ts })
      rotate ts
      if shutdown then (do act flush; abort; pure stop) else pure next

    -- `Ok((mut raw_event, timestamp))`
    unfoldable pub receive : Bytes → ℤ → Bool → Task Flow
    unfolding act ◌>>=◌ ◌>>◌
    receive raw ts shutdown = if is_close raw ts then (do act (ack ts); pure next) else (do
      stored ← lift (event_key formats kind source raw ts)
      store_event stored.0 stored.1 ts shutdown)

    unfoldable pub step : Input → Task Flow
    unfolding act update ◌>>=◌ ◌>>◌
    step (received raw ts shutdown) = receive raw ts shutdown
    step finished_early = do abort; pure stop
    step recv_error = do act flush; abort; lift (err "handle error")

    -- The loop, and the flush behind it. Input that ends first leaves the task waiting. An error
    -- ends the loop and not the interval task.
    unfoldable pub handle_data : List Input → Task (Unit {0})
    unfolding act pause
    handle_data [] s = (ok tt, pause io schedule s)
    handle_data (i ∷ inputs) s =
        let (r, s') = step i s in
        elim r [
          | err e ↦ (err e, pause io schedule s')
          | ok stop ↦ (let (r', t) = act flush s' in (r', pause io schedule t))
          | ok next ↦ handle_data inputs s'
        ]
