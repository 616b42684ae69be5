-- ===== src/Export/File.antt =====
-- The file of an export: `process_export`, `export_file`, `write_filtered_data_to_file` and
-- `parse_key` of src/graphql/export.rs. A file is its lines. How a value is displayed, its JSON and
-- the format of a time are parameters, and so is whether a line is written.
pub mod Written
use text.Mathlib.Text.{◌==◌ as str_eq}
use giganto.Prelude.{
  ℕ, zero, suc, ◌/◌, ◌%◌, ◌^◌, ◌-◌, Bool, true, false, Option, none, some, List, [], ◌∷◌, ◌++◌,
  String, length, leb, drop, if◌then◌else◌, ◌==◌,
}
use giganto.Bytes.{Bytes}
use giganto.Int64.{ℤ, pos, negsuc, from_be_bytes}
use giganto.Outcome.{Outcome, ok, err}
use giganto.Chrono.{Chrono}
use giganto.Filter.{Text, IpAddr, Fields}
use giganto.Store.{RawEventStore, forward}
use giganto.Iter.{boundary_iter}
use giganto.Export.{ExportFilter, get_mid_key, check_export}
use giganto.Key.{
  StorageKeyBuilder, builder, start_key, mid_key, build, lower_closed_bound_end_key,
  upper_open_bound_end_key,
}

-- What a task ends with: it returns, or it panics.
pub data Ended {ℓ} (A : Type ℓ) : Type ℓ where
  returned : Outcome A → Ended A
  panicked : String → Ended A

-- The bytes before the first zero byte.
abbrev pub before_nul : Bytes → Option Bytes
before_nul [] = none
before_nul (b ∷ bs) =
    let later = before_nul bs in
    if b == 0 then some [] else elim later [ none ↦ none | some s ↦ some (b ∷ s) ]

-- `parse_key`; a key of fewer than eight bytes makes `key.len() - 8` overflow.
unfoldable pub parse_key : (Bytes → Text) → Bytes → Ended (Text × ℤ)
parse_key from_utf8_lossy key = elim (before_nul key) [
  | none ↦ returned (err "Invalid key")
  | some s ↦
      if leb 8 (length key)
      then returned (ok (from_utf8_lossy s, from_be_bytes (drop (length key - 8) key)))
      else panicked "attempt to subtract with overflow"
]

abbrev pub a_billion : ℕ
a_billion = 10 ^ 9

abbrev pub minus : ℕ → ℤ
minus zero = pos 0
minus (suc k) = negsuc k

-- The quotient and the remainder of the division by 1,000,000,000, whose sign is that of the
-- timestamp. `none` is that `u32::try_from` fails, and `expect` panics.
abbrev pub seconds : ℤ → Option (ℤ × ℕ)
seconds (pos n) = some (pos (n / a_billion), n % a_billion)
seconds (negsuc n) = if suc n % a_billion == 0 then some (minus (suc n / a_billion), 0) else none

-- What the records are printed with.
pub record Output (T : Type 0) : Type 0 where
  -- `EventFilter`
  pub fields : T → Fields
  pub parse : Text → Outcome IpAddr
  pub from_utf8_lossy : Bytes → Text
  -- `NaiveDateTime::from_timestamp_opt` and `format("%s%.9f")`
  pub time_text : ℤ → ℕ → Option Text
  -- `Display`
  pub display : T → Text
  -- `convert_json_output` and `serde_json::to_string`, of the value, the timestamp and the source
  pub json : T → Text → Text → Outcome Text
  -- `writeln!`, by the lines that the file has
  pub writes : List Text → Outcome (Unit {0})

abbrev pub Written : Type 0
Written = Ended (Unit {0}) × List Text

-- A tab.
abbrev pub tab : Text
tab = 9 ∷ []

module _ (c : Chrono) {T : Type 0} (o : Output T) (filter : ExportFilter c)
    (export_type : String) where
  -- "-" stands for a time that is out of range.
  abbrev pub timestamp_text : ℤ × ℕ → Text
  timestamp_text (secs, nanosecs) = elim (o.time_text secs nanosecs) [ none ↦ 45 ∷ [] | some s ↦ s ]

  -- The line of a record; nothing is written for another type than these two.
  unfoldable pub line : Text → Text → T → Outcome (Option Text)
  line timestamp source value =
      if str_eq export_type "csv"
      then ok (some (timestamp ++ tab ++ source ++ tab ++ o.display value))
      else if str_eq export_type "json"
      then elim (o.json value timestamp source) [ ok l ↦ ok (some l) | err e ↦ err e ]
      else ok none

  unfoldable pub write_line : Outcome (Option Text) → List Text → Written
  write_line (err e) file = (returned (err e), file)
  write_line (ok none) file = (returned (ok tt), file)
  write_line (ok (some l)) file = elim (o.writes file) [
    | ok _ ↦ (returned (ok tt), file ++ l ∷ [])
    | err e ↦ (returned (err e), file)
  ]

  unfoldable pub write_accepted : Bytes → T → List Text → Written
  unfolding parse_key line write_line
  write_accepted key value file = elim (parse_key o.from_utf8_lossy key) [
    | panicked p ↦ (panicked p, file)
    | returned (err e) ↦ (returned (err e), file)
    | returned (ok (source, timestamp)) ↦ elim (seconds timestamp) [
      | none ↦ (panicked "< 1_000_000_000", file)
      | some t ↦ write_line (line (timestamp_text t) source value) file
    ]
  ]

  unfoldable pub write_filtered_data_to_file : Bytes → T → List Text → Written
  unfolding write_accepted
  write_filtered_data_to_file key value file =
      elim (check_export c o.parse filter (o.fields value)) [
        | ok true ↦ write_accepted key value file
        | ok false ↦ (returned (ok tt), file)
        | err e ↦ (returned (ok tt), file)
      ]

  -- The loop of `export_file`; the counter of invalid items is only logged.
  unfoldable pub write_items : List (Outcome (Bytes × T)) → List Text → Written
  unfolding write_filtered_data_to_file
  write_items [] file = (returned (ok tt), file)
  write_items (err e ∷ rest) file = write_items rest file
  write_items (ok item ∷ rest) file =
      let step = write_filtered_data_to_file item.0 item.1 file in
      elim step.0 [
        | panicked p ↦ (panicked p, step.1)
        | returned (err e) ↦ (returned (err e), step.1)
        | returned (ok _) ↦ write_items rest step.1
      ]

  -- `File::create` empties the file. Its result is the first argument; the message of success is
  -- left out.
  unfoldable pub export_file : Outcome (Unit {0}) → List (Outcome (Bytes × T)) → List Text → Written
  unfolding write_items
  export_file (err e) items file = (returned (err e), file)
  export_file (ok _) items file = write_items items []

  abbrev pub export_builder : StorageKeyBuilder
  export_builder = mid_key (start_key builder filter.source_id) (get_mid_key c filter)

  abbrev pub export_from : Bytes
  export_from = build (lower_closed_bound_end_key c export_builder filter.start)

  abbrev pub export_to : Bytes
  export_to = build (upper_open_bound_end_key c export_builder filter.end)

  unfoldable pub process_export :
      (Bytes → Outcome T) → RawEventStore → Outcome (Unit {0}) → List Text → Written
  unfolding export_file
  process_export deserialize store create file =
      export_file create (boundary_iter deserialize store export_from export_to forward) file
