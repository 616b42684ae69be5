-- ===== src/Ingest/Kept.antt =====
-- What every action of `handle_data` (src/ingest.rs), and every step of its interval task, keeps:
-- that the timestamps that may be acknowledged are those of stored events.
use giganto.Prelude.{
  ◌≢◌, Ordering, Ordering-cases, Bool-cases, ℕ, zero, suc, ◌+◌, ◌%◌, ◌^◌, ◌≡◌, ◌⊎◌, inl, inr, refl,
  sym, subst, ap, ◌∙◌, Bool, true, false, List, [], ◌∷◌, arith, leb, String, if◌then◌else◌,
}
use giganto.Bytes.{Bytes}
use giganto.Int64.{ℤ, pos, negsuc, cmp_ℤ}
use giganto.Outcome.{Outcome, ok, err, Outcome-cases}
use giganto.Ingest.{
  Effect, append, direct, ack, flush, Session, Turn, waiting, loaded, acknowledged, next, stop,
  Task, ack_rotation_cnt, channel_close_timestamp, no_timestamp, ◌>>=◌, ◌>>◌, pure, is_close,
  perform, interval_step, interval_steps, pause, act, update, abort, rotate,
}

-- An event with the timestamp is stored.
abbrev pub Stored : ℤ → List Effect → Type 0
Stored t [] = ⊥
Stored t (append key raw ts ∷ done) = (t ≡ ts) ⊎ Stored t done
Stored t (direct raw ts ∷ done) = Stored t done
Stored t (ack ts ∷ done) = Stored t done
Stored t (flush ∷ done) = Stored t done

abbrev pub MayAck : ℤ → List Effect → Type 0
MayAck t done = (t ≡ channel_close_timestamp) ⊎ Stored t done

-- Every acknowledgement answers a request to close the channel, or has the timestamp of an event
-- that was stored before it.
abbrev pub AcksStored : List Effect → Type 0
AcksStored [] = Unit
AcksStored (append key raw ts ∷ done) = AcksStored done
AcksStored (direct raw ts ∷ done) = AcksStored done
AcksStored (ack ts ∷ done) = MayAck ts done × AcksStored done
AcksStored (flush ∷ done) = AcksStored done

abbrev pub Pending : Turn → List Effect → Type 0
Pending waiting done = Unit
Pending (loaded ts) done = Stored ts done
Pending acknowledged done = Unit

pub record Inv (s : Session) : Type 0 where
  pub sound : AcksStored s.done
  pub current : (s.ack_time ≡ no_timestamp) ⊎ Stored s.ack_time s.done
  pub pending : Pending s.turn s.done

cmp_ℤ-eq : (z : ℤ) → cmp_ℤ z no_timestamp ≡ Ordering.eq → z ≡ no_timestamp
cmp_ℤ-eq (pos n) h = ground arith
cmp_ℤ-eq (negsuc n) h = cc

cmp_close : (z : ℤ) → cmp_ℤ z channel_close_timestamp ≡ Ordering.eq → z ≡ channel_close_timestamp
cmp_close (pos n) h = cc
cmp_close (negsuc n) h = ground arith

pub close_timestamp : (raw : Bytes) (ts : ℤ) → is_close raw ts ≡ true → ts ≡ channel_close_timestamp
close_timestamp raw ts h = ground (arith, cmp_close ts)

pub failed : (m : String) (u : Unit {0}) → err m ≡ ok u → ⊥
failed m u h = cc

apart : Ordering.lt ≡ Ordering.eq → ⊥
apart h = cc

apart' : Ordering.gt ≡ Ordering.eq → ⊥
apart' h = cc

pub Stored-grows : (t : ℤ) (e : Effect) (done : List Effect) → Stored t done → Stored t (e ∷ done)
Stored-grows t (append key raw ts) done h = inr h
Stored-grows t (direct raw ts) done h = h
Stored-grows t (ack ts) done h = h
Stored-grows t flush done h = h

Pending-grows :
    (turn : Turn) (e : Effect) (done : List Effect) → Pending turn done → Pending turn (e ∷ done)
Pending-grows waiting e done h = tt
Pending-grows (loaded ts) e done h = Stored-grows ts e done h
Pending-grows acknowledged e done h = tt

-- What an effect needs for the acknowledgements to stay sound.
abbrev pub Allowed : Effect → List Effect → Type 0
Allowed (ack ts) done = MayAck ts done
Allowed _ done = Unit

AcksStored-grows :
    (e : Effect) (done : List Effect) → Allowed e done → AcksStored done → AcksStored (e ∷ done)
AcksStored-grows (append key raw ts) done a h = h
AcksStored-grows (direct raw ts) done a h = h
AcksStored-grows (ack ts) done a h = (a, h)
AcksStored-grows flush done a h = h

Inv-grows :
    (e : Effect) (s : Session) → Allowed e s.done → Inv s → Inv (record s { done = e ∷ s.done })
Inv-grows e s a h = record {
  sound = AcksStored-grows e s.done a h.sound;
  current = elim h.current [ inl z ↦ inl z | inr k ↦ inr (Stored-grows s.ack_time e s.done k) ];
  pending = Pending-grows s.turn e s.done h.pending;
}

-- The invariant with a property of the effects that more of them do not destroy.
module _ (io : List Effect → Effect → Outcome (Unit {0})) (schedule : ℕ → ℕ)
    (E : List Effect → Type 0)
    (grows : (e : Effect) (done : List Effect) → E done → E (e ∷ done)) where
  abbrev pub Good : Session → Type 0
  Good s = Inv s × E s.done

  perform-Good : (e : Effect) (s : Session) → Allowed e s.done → Good s → Good (perform io e s).1
  unfolding perform
  perform-Good e s a h = elim (Outcome-cases (io s.done e)) [
    | inl (m, q) ↦ rw (perform, q) h
    | inr (u, q) ↦ rw (perform, q) (Inv-grows e s a h.0, grows e s.done h.1)
  ]

  with_turn : (t : Turn) (s : Session) → Pending t s.done → Good s → Good (record s { turn = t })
  with_turn t s k h = (record { sound = h.0.sound; current = h.0.current; pending = k }, h.1)

  loads :
      (s : Session) → Inv s → cmp_ℤ s.ack_time no_timestamp ≢ Ordering.eq → Stored s.ack_time s.done
  loads s h n = elim h.current [ inl z ↦ absurd (n (ap (λ t. cmp_ℤ t no_timestamp) z)) | inr k ↦ k ]

  interval_step_lem :
      (b : Bool) (t : Turn) (s : Session)
      → s.interval ≡ b
      → s.turn ≡ t
      → Good s
      → Good (interval_step io s)
  unfolding interval_step
  interval_step_lem false t s i e h = rw (interval_step, i) h
  interval_step_lem true waiting s i e h = elim (Ordering-cases (cmp_ℤ s.ack_time no_timestamp)) [
    | inl c ↦
        rw (interval_step, i, e, c)
          (with_turn (loaded s.ack_time) s (loads s h.0 (λ q. apart (sym c ∙ q))) h)
    | inr (inl c) ↦ rw (interval_step, i, e, c) h
    | inr (inr c) ↦
        rw (interval_step, i, e, c)
          (with_turn (loaded s.ack_time) s (loads s h.0 (λ q. apart' (sym c ∙ q))) h)
  ]
  interval_step_lem true (loaded ts) s i e h =
      let k : Stored ts s.done = subst (λ t. Pending t s.done) e h.0.pending in
      let g = Inv-grows (ack ts) s (inr k) h.0 in
      elim (Outcome-cases (io s.done (ack ts))) [
        | inl (m, q) ↦
            let r : perform io (ack ts) s ≡ (err m, s) = unfold perform in rw (perform, q) refl in
            rw (interval_step, i, e, r)
              (rw r
                (record { sound = h.0.sound; current = h.0.current; pending = h.0.pending }, h.1))
        | inr (u, q) ↦
            let r : perform io (ack ts) s ≡ (ok tt, record s { done = ack ts ∷ s.done }) =
              unfold perform in rw (perform, q) refl in
            rw (interval_step, i, e, r)
              (rw r (
                record { sound = g.sound; current = g.current; pending = tt },
                grows (ack ts) s.done h.1,
              ))
      ]
  interval_step_lem true acknowledged s i e h =
      rw (interval_step, i, e)
        (record { sound = h.0.sound; current = h.0.current; pending = tt }, h.1)

  interval_step-Good : (s : Session) → Good s → Good (interval_step io s)
  interval_step-Good s h = interval_step_lem s.interval s.turn s refl refl h

  interval_steps-Good : (n : ℕ) (s : Session) → Good s → Good (interval_steps io n s)
  unfolding interval_steps
  interval_steps-Good zero s h = h
  interval_steps-Good (suc n) s h =
      interval_steps-Good n (interval_step io s) (interval_step-Good s h)

  pub pause-Good : (s : Session) → Good s → Good (pause io schedule s)
  unfolding pause
  pause-Good s h =
      interval_steps-Good (schedule s.clock) (record s { clock = s.clock + 1 })
        (record { sound = h.0.sound; current = h.0.current; pending = h.0.pending }, h.1)

  -- A part of the loop that keeps the invariant.
  abbrev pub Keeps : {A : Type 0} → Task A → Type 0
  Keeps m = (s : Session) → Good s → Good (m s).1

  >>=-Keeps :
      {A B : Type 0} (m : Task A) (f : A → Task B)
      → Keeps m
      → ((a : A) → Keeps (f a))
      → Keeps (m >>= f)
  unfolding ◌>>=◌
  >>=-Keeps m f h k s g = elim (Outcome-cases (m s).0) [
    | inl (e, q) ↦ rw (◌>>=◌, q) (h s g)
    | inr (a, q) ↦ rw (◌>>=◌, q) (k a (m s).1 (h s g))
  ]

  pub pure-Keeps : {A : Type 0} (a : A) → Keeps (pure a)
  pure-Keeps a s g = g

  pub act-Keeps :
      (e : Effect) → ((done : List Effect) → E done → Allowed e done) → Keeps (act io schedule e)
  unfolding act
  act-Keeps e a s g =
      let g' = pause-Good s g in
      perform-Good e (pause io schedule s) (a (pause io schedule s).done g'.1) g'

  -- Changes of the counter and of whether the interval task runs.
  count-Keeps : (f : ℕ → ℕ) → Keeps (update io schedule (λ s. record s { ack_cnt = f s.ack_cnt }))
  unfolding update
  count-Keeps f s g =
      let g' = pause-Good s g in
      (record { sound = g'.0.sound; current = g'.0.current; pending = g'.0.pending }, g'.1)

  pub abort-Keeps : Keeps (abort io schedule)
  unfolding update
  abort-Keeps s g =
      let g' = pause-Good s g in
      (record { sound = g'.0.sound; current = g'.0.current; pending = g'.0.pending }, g'.1)

  time-Keeps :
      (ts : ℤ)
      → ((done : List Effect) → E done → Stored ts done)
      → Keeps (update io schedule (λ s. record s { ack_time = ts }))
  unfolding update
  time-Keeps ts k s g =
      let g' = pause-Good s g in
      (
        record {
          sound = g'.0.sound;
          current = inr (k (pause io schedule s).done g'.1);
          pending = g'.0.pending;
        },
        g'.1,
      )

  pub >>-Keeps : {A B : Type 0} (m : Task A) (k : Task B) → Keeps m → Keeps k → Keeps (m >> k)
  unfolding ◌>>◌
  >>-Keeps m k h l = >>=-Keeps m (λ _. k) h (λ a. l)

  rotate-Keeps :
      (ts : ℤ) → ((done : List Effect) → E done → Stored ts done) → Keeps (rotate io schedule ts)
  unfolding rotate
  rotate-Keeps ts k s g =
      let g' = pause-Good s g in
      let reset = count-Keeps (λ n. 0) in
      elim (Bool-cases (leb ack_rotation_cnt (pause io schedule s).ack_cnt)) [
        | inl b ↦
            rw (rotate, b)
              (>>-Keeps (act io schedule (ack ts))
                (update io schedule (λ s. record s { ack_cnt = 0 }) >> act io schedule flush)
                (act-Keeps (ack ts) (λ d e. inr (k d e)))
                (>>-Keeps (update io schedule (λ s. record s { ack_cnt = 0 }))
                  (act io schedule flush) reset (act-Keeps flush (λ d e. tt)))
                (pause io schedule s) g')
        | inr b ↦ rw (rotate, b) g'
      ]

  stop-Keeps :
      (b : Bool)
      → Keeps (if b then (act io schedule flush >> (abort io schedule >> pure stop)) else pure next)
  stop-Keeps true =
      >>-Keeps (act io schedule flush) _ (act-Keeps flush (λ d e. tt))
        (>>-Keeps (abort io schedule) (pure stop) abort-Keeps (pure-Keeps stop))
  stop-Keeps false = pure-Keeps next

  direct-Keeps :
      (b : Bool) (raw : Bytes) (ts : ℤ)
      → Keeps (if b then act io schedule (direct raw ts) else pure tt)
  direct-Keeps true raw ts = act-Keeps (direct raw ts) (λ d e. tt)
  direct-Keeps false raw ts = pure-Keeps tt

  -- What follows the storing of an event.
  pub Stored-Keeps :
      (has_network_key : Bool) (raw : Bytes) (ts : ℤ) (shutdown : Bool)
      → ((done : List Effect) → E done → Stored ts done)
      → Keeps (
          (if has_network_key then act io schedule (direct raw ts) else pure tt)
          >> (update io schedule (λ s. record s { ack_cnt = (s.ack_cnt + 1) % 2 ^ 16 })
              >> (update io schedule (λ s. record s { ack_time = ts })
                  >> (rotate io schedule ts
                      >> (if shutdown
                          then (act io schedule flush >> (abort io schedule >> pure stop))
                          else pure next)))))
  Stored-Keeps has_network_key raw ts shutdown k =
      >>-Keeps (if has_network_key then act io schedule (direct raw ts) else pure tt) _
        (direct-Keeps has_network_key raw ts)
        (>>-Keeps (update io schedule (λ s. record s { ack_cnt = (s.ack_cnt + 1) % 2 ^ 16 })) _
          (count-Keeps (λ n. (n + 1) % 2 ^ 16))
          (>>-Keeps (update io schedule (λ s. record s { ack_time = ts })) _ (time-Keeps ts k)
            (>>-Keeps (rotate io schedule ts) _ (rotate-Keeps ts k) (stop-Keeps shutdown))))
