-- ===== src/Tests/Keys.antt =====
-- Keys of the source `src` and the column families (src/storage.rs).
use giganto.Prelude.{◌≡◌, ◌↔◌, ◌≤◌, ◌<◌, refl, some, arith}
use giganto.Int64.{pos}
use giganto.Chrono.{nanos}
use giganto.Key.{builder, start_key, build, lower_closed_bound_end_key, upper_open_bound_end_key}
use giganto.Key.Window.{Between, Between-window}
use giganto.Families.{Accessor}
use giganto.Dispatch.{RawEventKind, ingest_handler, range_handler}
use giganto.Dispatch.Agreement.{range_store, range_handler-ingest}
use giganto.Tests.{source, key_at}

Between-window_example :
    Between
      (build (lower_closed_bound_end_key nanos (start_key builder source) (some (pos 10))))
      (build (upper_open_bound_end_key nanos (start_key builder source) (some (pos 20))))
      (key_at 20)
    ↔ (10 ≤ 20) × (20 < 20)
Between-window_example =
    Between-window nanos (start_key builder source) (some (pos 10)) (some (pos 20)) 10 20 20 refl
      (refl, omega arith) (omega arith)

range_handler-ingest_example :
    range_store (range_handler RawEventKind.file_create_time) ≡ some Accessor.file_create
unfolding ingest_handler
range_handler-ingest_example = range_handler-ingest RawEventKind.file_create_time
