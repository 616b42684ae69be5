-- ===== src/Export/File/Written.antt =====
-- What an export writes (src/graphql/export.rs).
use mathlib.Core.List.{append_assoc, append-nil}
use giganto.Prelude.{
  ℕ, suc, ◌%◌, ◌≡◌, ◌≢◌, refl, ap, ◌∙◌, Bool, true, false, Option, none, some, List, [], ◌∷◌, ◌++◌,
  map, All, arith, length, length-append, leb, Bool-cases, inl, inr, String, ==_of_ne,
}
use giganto.Bytes.{Bytes}
use giganto.Int64.{
  ℤ, negsuc, InI64, from_be_bytes, to_be_bytes, length-to_be_bytes, from_be_bytes-to_be_bytes,
}
use giganto.Outcome.{Outcome, ok, err, Outcome-cases}
use giganto.Chrono.{Chrono}
use giganto.Filter.{Text}
use giganto.Store.{Entry, RawEventStore, Scans}
use giganto.Iter.{decode}
use giganto.Iter.Range.{between, boundary_iter-forward}
use giganto.Key.{builder, start_key, mid_key, end_key, build}
use giganto.Key.Shape.{NoNul, drop-timestamp}
use giganto.Page.{accepts}
use giganto.Page.Collect.{passing}
use giganto.Page.Accepted.{accepted}
use giganto.Export.{ExportFilter, check_export}
use giganto.Export.File.{
  returned, panicked, before_nul, parse_key, a_billion, seconds, Output, timestamp_text, line,
  write_line, write_accepted, write_filtered_data_to_file, write_items, export_file, export_from,
  export_to, process_export,
}

before_nul-source : (s rest : Bytes) → NoNul s → before_nul (s ++ 0 ∷ rest) ≡ some s
before_nul-source [] rest h = refl
before_nul-source (b ∷ s) rest h = rw (==_of_ne b 0 h.0, before_nul-source s rest h.1) refl

module _ (lossy : Bytes → Text) where
  parse_suffix :
      (p t s : Bytes)
      → length t ≡ 8
      → before_nul (p ++ t) ≡ some s
      → parse_key lossy (p ++ t) ≡ returned (ok (lossy s, from_be_bytes t))
  unfolding parse_key
  parse_suffix p t s n h =
      let long : leb 8 (length (p ++ t)) ≡ true = ground (arith, length-append p t, n) in
      rw (parse_key, h, long, drop-timestamp p t n) refl

  -- `parse_key` reads back the source and the timestamp of a key made of a source without a zero
  -- byte, an optional middle part and a timestamp in range.
  pub parse_key-end_key :
      (source : Bytes) (mid : Option Bytes) (ts : ℤ)
      → NoNul source
      → InI64 ts
      → parse_key lossy (build (end_key (mid_key (start_key builder source) mid) ts))
        ≡ returned (ok (lossy source, ts))
  unfolding end_key mid_key start_key
  parse_key-end_key source none ts n i =
      rw
        (
          parse_suffix (source ++ 0 ∷ []) (to_be_bytes ts) source (length-to_be_bytes ts) (
              rw (append_assoc source (0 ∷ []) (to_be_bytes ts))
                (before_nul-source source (to_be_bytes ts) n)),
          from_be_bytes-to_be_bytes ts i,
        )
        refl
  parse_key-end_key source (some k) ts n i =
      let front = source ++ 0 ∷ [] in
      let t = to_be_bytes ts in
      let shape =
        append_assoc (front ++ k) (0 ∷ []) t
        ∙ append_assoc front k (0 ∷ t)
        ∙ append_assoc source (0 ∷ []) (k ++ 0 ∷ t) in
      rw
        (
          parse_suffix ((front ++ k) ++ 0 ∷ []) t source (length-to_be_bytes ts)
              (rw shape (before_nul-source source (k ++ 0 ∷ t) n)),
          from_be_bytes-to_be_bytes ts i,
        )
        refl

module _ (c : Chrono) {T : Type 0} (o : Output T) (filter : ExportFilter c)
    (export_type : String) where
  -- `ExportFilter::check` of what is read of a value.
  abbrev pub wants : T → Outcome Bool
  wants value = check_export c o.parse filter (o.fields value)

  -- A record with a line: its key has a source and a timestamp that is not before 1970 or a whole
  -- number of seconds.
  pub record Printable (text : Bytes × T → Text) (r : Bytes × T) : Type 0 where
    pub source : Text
    pub timestamp : ℤ
    pub time : ℤ × ℕ
    pub parses : parse_key o.from_utf8_lossy r.0 ≡ returned (ok (source, timestamp))
    pub divides : seconds timestamp ≡ some time
    pub prints :
        line c o filter export_type (timestamp_text c o filter export_type time) source r.1
        ≡ ok (some (text r))

  accepted_step :
      (r : Bytes × T) (file : List Text)
      → accepts wants r ≡ true
      → write_filtered_data_to_file c o filter export_type r.0 r.1 file
        ≡ write_accepted c o filter export_type r.0 r.1 file
  unfolding write_filtered_data_to_file
  accepted_step r file h = elim (Outcome-cases (wants r.1)) [
    | inl (m, q) ↦ let y : false ≡ true = rw (accepts, q) at h in cc
    | inr (true, q) ↦ rw (write_filtered_data_to_file, q) refl
    | inr (false, q) ↦ let y : false ≡ true = rw (accepts, q) at h in cc
  ]

  refused_step :
      (r : Bytes × T) (file : List Text)
      → accepts wants r ≡ false
      → write_filtered_data_to_file c o filter export_type r.0 r.1 file ≡ (returned (ok tt), file)
  unfolding write_filtered_data_to_file
  refused_step r file h = elim (Outcome-cases (wants r.1)) [
    | inl (m, q) ↦ rw (write_filtered_data_to_file, q) refl
    | inr (true, q) ↦ let y : true ≡ false = rw (accepts, q) at h in cc
    | inr (false, q) ↦ rw (write_filtered_data_to_file, q) refl
  ]

  module _ (written : (file : List Text) → o.writes file ≡ ok tt) (text : Bytes × T → Text) where
    write-accepted_one :
        (r : Bytes × T) (file : List Text)
        → Printable text r
        → write_accepted c o filter export_type r.0 r.1 file
          ≡ (returned (ok tt), file ++ text r ∷ [])
    unfolding write_accepted write_line
    write-accepted_one r file h =
        rw (write_accepted, h.parses, h.divides, h.prints, write_line, written file) refl

    write_items-passing :
        (items : List (Outcome (Bytes × T))) (file : List Text)
        → All (Printable text) (passing wants items)
        → write_items c o filter export_type items file
          ≡ (returned (ok tt), file ++ map text (passing wants items))
    unfolding write_items
    write_items-passing [] file h = rw (append-nil file) refl
    write_items-passing (err e ∷ rest) file h = write_items-passing rest file h
    write_items-passing (ok item ∷ rest) file h = elim (Bool-cases (accepts wants item)) [
      | inl a ↦
          let k : All (Printable text) (item ∷ passing wants rest) = rw a at h in
          let step = accepted_step item file a ∙ write-accepted_one item file k.0 in
          rw (write_items, step, a)
            (rw step (
              write_items-passing rest (file ++ text item ∷ []) k.1
              ∙ ap (λ l. (returned (ok tt), l))
                  (append_assoc file (text item ∷ []) (map text (passing wants rest)))))
      | inr a ↦
          let step = refused_step item file a in
          rw (write_items, step, a) (rw step (write_items-passing rest file (rw a at h)))
    ]

    -- The records of the time range that the filter accepts.
    abbrev pub exported : (Bytes → Outcome T) → List Entry → List (Bytes × T)
    exported deserialize entries =
        accepted wants deserialize
          (between (export_from c o filter export_type) (export_to c o filter export_type) entries)

    -- Over a store that is read without errors, an export into a file that is created, and where
    -- every line is written, leaves exactly the lines of the records of the time range that the
    -- filter accepts, in the order of their keys, if each of them has a line: an undecodable
    -- record is left out, and so is what the file held before.
    pub process_export-writes :
        (deserialize : Bytes → Outcome T) (store : RawEventStore) (entries : List Entry)
        (file : List Text)
        → Scans store entries
        → All (Printable text) (exported deserialize entries)
        → process_export c o filter export_type deserialize store (ok tt) file
          ≡ (returned (ok tt), map text (exported deserialize entries))
    unfolding process_export export_file
    process_export-writes deserialize store entries file s h =
        rw
          (
            process_export,
            boundary_iter-forward deserialize store entries (export_from c o filter export_type)
                (export_to c o filter export_type) s,
          )
          (write_items-passing
            (map (decode deserialize) (
              between (export_from c o filter export_type) (export_to c o filter export_type)
                entries))
            [] h)

  -- A record that the filter accepts and whose timestamp is before 1970 and not a whole number of
  -- seconds ends the export in a panic: no record behind it is written.
  pub write_items_before_epoch :
      (source : Bytes) (mid : Option Bytes) (n : ℕ) (value : T) (rest : List (Outcome (Bytes × T)))
      (file : List Text)
      → NoNul source
      → InI64 (negsuc n)
      → suc n % a_billion ≢ 0
      → wants value ≡ ok true
      → write_items c o filter export_type
          (ok (build (end_key (mid_key (start_key builder source) mid) (negsuc n)), value) ∷ rest)
          file
        ≡ (panicked "< 1_000_000_000", file)
  unfolding write_items write_filtered_data_to_file write_accepted
  write_items_before_epoch source mid n value rest file u i d w =
      let key = build (end_key (mid_key (start_key builder source) mid) (negsuc n)) in
      let p = parse_key-end_key o.from_utf8_lossy source mid (negsuc n) u i in
      let t : seconds (negsuc n) ≡ none = rw (==_of_ne (suc n % a_billion) 0 d) refl in
      let a : write_accepted c o filter export_type key value file
          ≡ (panicked "< 1_000_000_000", file) =
        rw (write_accepted, p, t) refl in
      let f : write_filtered_data_to_file c o filter export_type key value file
          ≡ (panicked "< 1_000_000_000", file) =
        rw (write_filtered_data_to_file, w) a in
      rw (write_items, f) (rw f refl)
