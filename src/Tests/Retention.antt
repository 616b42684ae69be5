-- ===== src/Tests/Retention.antt =====
-- Turns of the retention task (src/storage.rs) on stores of the source `src`.
use giganto.Prelude.{◌≡◌, true, refl, not, some, List, [], ◌∷◌, arith, select, All, inl}
use giganto.Bytes.{Bytes, to_be, of_be}
use giganto.Int64.{pos, to_be_bytes, from_be_bytes}
use giganto.Outcome.{ok}
use giganto.Key.{start_key, end_key}
use giganto.Search.Found.{In}
use giganto.Store.{Entry}
use giganto.Retain.{store_duration}
use giganto.Retain.Cutoff.{in_range}
use giganto.Retain.Periodic.{Faults, tick, shutdown, cutoff_of, retain_periodically, retain_sources}
use giganto.Retain.Periodic.Young.{BothKept, retain_periodically-BothKept}
use giganto.Retain.Periodic.Deleted.{no_faults, retain_sources-gone}
use giganto.Tests.{source, source-NoNul, key_at}

dated : store_duration (key_at 80000000000) ≡ pos 80000000000
unfolding from_be_bytes of_be to_be_bytes to_be end_key start_key
dated = refl

abbrev delete_range : Bytes → Bytes → List Entry → List Entry
delete_range from to entries = select (λ e. not (in_range from to e.0)) entries

abbrev all_entries : Bytes → List Entry → List Entry
all_entries prefix entries = entries

abbrev old_and_new : List Entry
old_and_new = (key_at 65000000000, 1 ∷ []) ∷ (key_at 80000000000, 2 ∷ []) ∷ []

-- The first store cannot be flushed.
abbrev unflushed : Faults
unflushed = record no_faults { flush_fails = λ source n. true }

retain_sources-gone_example :
    All
      (λ l. ¬ In (key_at 80000000000, 2 ∷ []) l)
      (retain_sources delete_range all_entries no_faults
        (cutoff_of (some (pos 90000000000)) 3000000000000000000)
        (source ∷ [])
        (old_and_new ∷ [], [])).1.0
retain_sources-gone_example =
    retain_sources-gone delete_range all_entries (λ from to entries. refl) 90000000000
      3000000000000000000 (source ∷ []) (old_and_new ∷ [], []) source (2 ∷ []) 80000000000
      (omega arith) (omega arith) (inl refl) (omega arith) (omega arith)

retain_periodically-BothKept_example :
    BothKept delete_range all_entries
      (λ from to entries. refl)
      source
      (2 ∷ [])
      (key_at 80000000000, 3 ∷ [])
      80000000000
      source-NoNul
      (omega arith)
      dated
      (old_and_new ∷ [], (key_at 80000000000, 3 ∷ []) ∷ [])
      (retain_periodically delete_range all_entries 20000000000
        (tick (some (pos 90000000000)) (ok (source ∷ [])) unflushed ∷ shutdown ∷ [])
        (old_and_new ∷ [], (key_at 80000000000, 3 ∷ []) ∷ [])).1
retain_periodically-BothKept_example =
    retain_periodically-BothKept delete_range all_entries (λ from to entries. refl) source (2 ∷ [])
      (key_at 80000000000, 3 ∷ []) 80000000000 source-NoNul (omega arith) dated 20000000000
      (tick (some (pos 90000000000)) (ok (source ∷ [])) unflushed ∷ shutdown ∷ [])
      (old_and_new ∷ [], (key_at 80000000000, 3 ∷ []) ∷ [])
      ((omega arith, omega arith, (source-NoNul, tt)), (tt, tt))
