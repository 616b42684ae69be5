-- ===== src/Ingest/Stored.antt =====
-- What `handle_data` (src/ingest.rs) stores, and how it ends.
use mathlib.Core.List.{append-nil, append_assoc}
use giganto.Prelude.{
  Ordering-cases, ℕ, zero, suc, ◌+◌, ◌%◌, ◌^◌, leb, Option, none, some, ◌≡◌, ◌⊎◌, refl, sym, ap,
  ◌∙◌, Bool, true, false, List, [], ◌∷◌, ◌++◌, arith, if◌then◌else◌, Bool-cases, inl, inr,
}
use giganto.Bytes.{Bytes}
use giganto.Int64.{ℤ, cmp_ℤ}
use giganto.Outcome.{Outcome, ok, err}
use giganto.Store.{equals}
use giganto.Dispatch.{RawEventKind}
use giganto.Ingest.EventKey.{Formats, event_key}
use giganto.Ingest.{
  Effect, append, direct, ack, flush, Input, received, finished_early, recv_error, Session, Turn,
  waiting, loaded, acknowledged, Flow, next, Task, ack_rotation_cnt, no_timestamp, ◌>>=◌, ◌>>◌,
  pure, is_close, perform, interval_step, interval_steps, pause, act, update, rotate, store_event,
  receive, step, handle_data,
}

-- What was put into the store, the oldest first.
abbrev pub put : List Effect → List (Bytes × Bytes)
put [] = []
put (append key raw ts ∷ done) = put done ++ (key, raw) ∷ []
put (direct raw ts ∷ done) = put done
put (ack ts ∷ done) = put done
put (flush ∷ done) = put done

-- What the store has under a key: RocksDB's `put` overwrites.
abbrev pub value_of : Bytes → List Effect → Option Bytes
value_of k [] = none
value_of k (append key raw ts ∷ done) =
    let earlier = value_of k done in if equals key k then some raw else earlier
value_of k (direct raw ts ∷ done) = value_of k done
value_of k (ack ts ∷ done) = value_of k done
value_of k (flush ∷ done) = value_of k done

-- The value of the last entry with a key, if there is one.
abbrev pub last_value : Bytes → List (Bytes × Bytes) → Option Bytes → Option Bytes
last_value k [] before = before
last_value k (e ∷ entries) before = last_value k entries (if equals e.0 k then some e.1 else before)

last_value-append :
    (k : Bytes) (xs ys : List (Bytes × Bytes)) (before : Option Bytes)
    → last_value k (xs ++ ys) before ≡ last_value k ys (last_value k xs before)
last_value-append k [] ys before = refl
last_value-append k (x ∷ xs) ys before =
    last_value-append k xs ys (if equals x.0 k then some x.1 else before)

value_of-put : (k : Bytes) (done : List Effect) → value_of k done ≡ last_value k (put done) none
value_of-put k [] = refl
value_of-put k (append key raw ts ∷ done) =
    ap (λ v. if equals key k then some raw else v) (value_of-put k done)
    ∙ sym (last_value-append k (put done) ((key, raw) ∷ []) none)
value_of-put k (direct raw ts ∷ done) = value_of-put k done
value_of-put k (ack ts ∷ done) = value_of-put k done
value_of-put k (flush ∷ done) = value_of-put k done

true_is_false : true ≡ false → ⊥
true_is_false h = cc

-- An environment in which every action succeeds.
abbrev pub succeeds : List Effect → Effect → Outcome (Unit {0})
succeeds done e = ok tt

module _ (formats : Formats) (kind : RawEventKind) (source : Bytes) (has_network_key : Bool) where
  -- The events of the input, each with its key, without the messages that close the channel.
  abbrev pub keyed : List Input → List (Bytes × Bytes)
  keyed [] = []
  keyed (received raw ts shutdown ∷ inputs) =
      let later = keyed inputs in
      if is_close raw ts
      then later
      else elim (event_key formats kind source raw ts) [ ok kv ↦ kv ∷ later | err e ↦ later ]
  keyed (finished_early ∷ inputs) = []
  keyed (recv_error ∷ inputs) = []

  -- Every event can be decoded, the shutdown signal is not set, and the stream does not end.
  abbrev pub Flows : List Input → Type 0
  Flows [] = Unit
  Flows (received raw ts shutdown ∷ inputs) =
      (shutdown ≡ false)
      × ((is_close raw ts ≡ true)
          ⊎ ((kv : Bytes × Bytes) × (event_key formats kind source raw ts ≡ ok kv)))
      × Flows inputs
  Flows (finished_early ∷ inputs) = ⊥
  Flows (recv_error ∷ inputs) = ⊥

  abbrev run : (ℕ → ℕ) → List Input → Session → Outcome (Unit {0}) × Session
  run schedule = handle_data succeeds schedule formats kind source has_network_key

  module _ (schedule : ℕ → ℕ) where
    put-interval_step : (s : Session) → put (interval_step succeeds s).done ≡ put s.done
    unfolding interval_step perform
    put-interval_step s = interval_step_lem s.interval s.turn s refl refl
      where
        interval_step_lem :
            (b : Bool) (t : Turn) (s : Session)
            → s.interval ≡ b
            → s.turn ≡ t
            → put (interval_step succeeds s).done ≡ put s.done
        interval_step_lem false t s i e = rw (interval_step, i) refl
        interval_step_lem true waiting s i e =
            elim (Ordering-cases (cmp_ℤ s.ack_time no_timestamp)) [
              | inl c ↦ rw (interval_step, i, e, c) refl
              | inr (inl c) ↦ rw (interval_step, i, e, c) refl
              | inr (inr c) ↦ rw (interval_step, i, e, c) refl
            ]
        interval_step_lem true (loaded ts) s i e = rw (interval_step, i, e) refl
        interval_step_lem true acknowledged s i e = rw (interval_step, i, e) refl

    put-interval_steps : (n : ℕ) (s : Session) → put (interval_steps succeeds n s).done ≡ put s.done
    unfolding interval_steps
    put-interval_steps zero s = refl
    put-interval_steps (suc n) s =
        put-interval_steps n (interval_step succeeds s) ∙ put-interval_step s

    put-pause : (s : Session) → put (pause succeeds schedule s).done ≡ put s.done
    unfolding pause
    put-pause s = put-interval_steps (schedule s.clock) (record s { clock = s.clock + 1 })

    -- A part of the loop that succeeds and puts the entries into the store.
    abbrev Puts : {A : Type 0} → List (Bytes × Bytes) → A → Task A → Type 0
    Puts entries a m = (s : Session) → ((m s).0 ≡ ok a) × (put (m s).1.done ≡ put s.done ++ entries)

    act-Puts :
        (e : Effect)
        → ((done : List Effect) → put (e ∷ done) ≡ put done)
        → Puts [] tt (act succeeds schedule e)
    unfolding act perform
    act-Puts e h s =
        (refl, h (pause succeeds schedule s).done ∙ put-pause s ∙ sym (append-nil (put s.done)))

    append-Puts :
        (key raw : Bytes) (ts : ℤ)
        → Puts ((key, raw) ∷ []) tt (act succeeds schedule (append key raw ts))
    unfolding act perform
    append-Puts key raw ts s = (refl, ap (λ l. l ++ (key, raw) ∷ []) (put-pause s))

    pure-Puts : {A : Type 0} (a : A) → Puts [] a (pure a)
    pure-Puts a s = (refl, sym (append-nil (put s.done)))

    update-Puts :
        (f : Session → Session)
        → ((s : Session) → (f s).done ≡ s.done)
        → Puts [] tt (update succeeds schedule f)
    unfolding update
    update-Puts f h s =
        (refl, ap put (h (pause succeeds schedule s)) ∙ put-pause s ∙ sym (append-nil (put s.done)))

    >>-Puts :
        {A B : Type 0} (m : Task A) (k : Task B) (a : A) (b : B) (xs ys : List (Bytes × Bytes))
        → Puts xs a m
        → Puts ys b k
        → Puts (xs ++ ys) b (m >> k)
    unfolding ◌>>◌ ◌>>=◌
    >>-Puts m k a b xs ys h l s =
        let (r, p) = h s in
        let (r', p') = l (m s).1 in
        rw (◌>>◌, ◌>>=◌, r) (r', p' ∙ ap (λ l. l ++ ys) p ∙ append_assoc (put s.done) xs ys)

    rotate-Puts : (ts : ℤ) → Puts [] tt (rotate succeeds schedule ts)
    unfolding rotate
    rotate-Puts ts s =
        let rest : Puts [] tt (
            update succeeds schedule (λ s. record s { ack_cnt = 0 })
            >> act succeeds schedule flush) =
          >>-Puts (update succeeds schedule (λ s. record s { ack_cnt = 0 }))
            (act succeeds schedule flush) tt tt [] []
            (update-Puts (λ s. record s { ack_cnt = 0 }) (λ s. refl))
            (act-Puts flush (λ d. refl)) in
        let (r, p) =
          >>-Puts (act succeeds schedule (ack ts))
            (update succeeds schedule (λ s. record s { ack_cnt = 0 })
              >> act succeeds schedule flush)
            tt tt [] [] (act-Puts (ack ts) (λ d. refl)) rest (pause succeeds schedule s) in
        elim (Bool-cases (leb ack_rotation_cnt (pause succeeds schedule s).ack_cnt)) [
          | inl b ↦ rw (rotate, b) (r, p ∙ ap (λ l. l ++ []) (put-pause s))
          | inr b ↦ rw (rotate, b) (refl, put-pause s ∙ sym (append-nil (put s.done)))
        ]

    direct-Puts :
        (b : Bool) (raw : Bytes) (ts : ℤ)
        → Puts [] tt (if b then act succeeds schedule (direct raw ts) else pure tt)
    direct-Puts true raw ts = act-Puts (direct raw ts) (λ d. refl)
    direct-Puts false raw ts = pure-Puts tt

    store_event-Puts :
        (key raw : Bytes) (ts : ℤ)
        → Puts
            ((key, raw) ∷ [])
            next
            (store_event succeeds schedule formats kind source has_network_key key raw ts false)
    unfolding store_event
    store_event-Puts key raw ts =
        let cnt = update succeeds schedule (λ s. record s { ack_cnt = (s.ack_cnt + 1) % 2 ^ 16 }) in
        let time = update succeeds schedule (λ s. record s { ack_time = ts }) in
        let rot = rotate succeeds schedule ts in
        let end : Task Flow = pure next in
        let sent = if has_network_key then act succeeds schedule (direct raw ts) else pure tt in
        >>-Puts (act succeeds schedule (append key raw ts))
          (sent >> (cnt >> (time >> (rot >> end)))) tt next ((key, raw) ∷ []) []
          (append-Puts key raw ts)
          (>>-Puts sent (cnt >> (time >> (rot >> end))) tt next [] []
            (direct-Puts has_network_key raw ts)
            (>>-Puts cnt (time >> (rot >> end)) tt next [] []
              (update-Puts (λ s. record s { ack_cnt = (s.ack_cnt + 1) % 2 ^ 16 }) (λ s. refl))
              (>>-Puts time (rot >> end) tt next [] []
                (update-Puts (λ s. record s { ack_time = ts }) (λ s. refl))
                (>>-Puts rot end tt next [] [] (rotate-Puts ts) (pure-Puts next)))))

    received-Puts :
        (raw : Bytes) (ts : ℤ)
        → (is_close raw ts ≡ true)
          ⊎ ((kv : Bytes × Bytes) × (event_key formats kind source raw ts ≡ ok kv))
        → Puts
            (keyed (received raw ts false ∷ []))
            next
            (step succeeds schedule formats kind source has_network_key (received raw ts false))
    unfolding step receive ◌>>=◌
    received-Puts raw ts h s = elim (Bool-cases (is_close raw ts)) [
      | inl c ↦ rw c (
          >>-Puts (act succeeds schedule (ack ts)) (pure next) tt next [] []
            (act-Puts (ack ts) (λ d. refl)) (pure-Puts next) s)
      | inr c ↦ elim h [
        | inl e ↦ absurd (true_is_false (sym e ∙ c))
        | inr (kv, e) ↦ rw (c, e) (store_event-Puts kv.0 kv.1 ts s)
      ]
    ]

    keyed-received :
        (raw : Bytes) (ts : ℤ) (inputs : List Input)
        → keyed (received raw ts false ∷ inputs)
          ≡ keyed (received raw ts false ∷ []) ++ keyed inputs
    keyed-received raw ts inputs = ground arith

    finishes :
        (s : Session)
        → ((run schedule (finished_early ∷ []) s).0 ≡ ok tt)
          × (put (run schedule (finished_early ∷ []) s).1.done ≡ put s.done)
    unfolding handle_data step update act perform ◌>>◌ ◌>>=◌
    finishes s =
        let s1 = pause succeeds schedule s in
        let s2 = record s1 { interval = false } in (refl, put-pause _ ∙ put-pause s2 ∙ put-pause s)

    puts_all :
        (inputs : List Input) (s : Session)
        → Flows inputs
        → ((run schedule (inputs ++ finished_early ∷ []) s).0 ≡ ok tt)
          × (put (run schedule (inputs ++ finished_early ∷ []) s).1.done
              ≡ put s.done ++ keyed inputs)
    unfolding handle_data
    puts_all [] s h = ((finishes s).0, (finishes s).1 ∙ sym (append-nil (put s.done)))
    puts_all (received raw ts true ∷ inputs) s h = cc
    puts_all (received raw ts false ∷ inputs) s h =
        let (r, p) = received-Puts raw ts h.1 s in
        let s' =
          (step succeeds schedule formats kind source has_network_key (received raw ts false)
            s).1 in
        let (r', p') = puts_all inputs s' h.2 in
        rw (handle_data, r)
          (
            r',
            p'
                ∙ ap (λ l. l ++ keyed inputs) p
                ∙ append_assoc (put s.done) (keyed (received raw ts false ∷ [])) (keyed inputs)
                ∙ ap (λ l. put s.done ++ l) (sym (keyed-received raw ts inputs)),
          )
    puts_all (finished_early ∷ inputs) s h = absurd h
    puts_all (recv_error ∷ inputs) s h = absurd h

    -- If no action fails, a stream of events that can be decoded, with messages that close the
    -- channel among them and the interval task at any moments, the shutdown signal not set, that
    -- then finishes, is put into the store in order, each event under the key of its kind, and the
    -- task ends well. Under every key the store then has the last event of the stream with that key,
    -- or what it had before: of events with one key the last remains.
    pub handle_data_stores :
        (inputs : List Input) (s : Session)
        → Flows inputs
        → let (r, s') = run schedule (inputs ++ finished_early ∷ []) s in
          (r ≡ ok tt)
          × (put s'.done ≡ put s.done ++ keyed inputs)
          × ((k : Bytes) → value_of k s'.done ≡ last_value k (keyed inputs) (value_of k s.done))
    handle_data_stores inputs s h =
        let (r, p) = puts_all inputs s h in
        let s' = (run schedule (inputs ++ finished_early ∷ []) s).1 in
        (
          r,
          p,
          λ k.
              value_of-put k s'.done
              ∙ ap (λ l. last_value k l none) p
              ∙ last_value-append k (put s.done) (keyed inputs) none
              ∙ ap (last_value k (keyed inputs)) (sym (value_of-put k s.done)),
        )
