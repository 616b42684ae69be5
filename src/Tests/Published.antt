-- ===== src/Tests/Published.antt =====
-- Requests and subscriptions (src/publish.rs).
use giganto.Prelude.{Option, none, some, ◌≡◌, refl, [], ◌∷◌, ◌++◌}
use giganto.Bytes.{Bytes, cmp, to_be, of_be}
use giganto.Int64.{pos, to_be_bytes, from_be_bytes}
use giganto.Outcome.{ok}
use giganto.Chrono.{nanos}
use giganto.Key.{
  builder, start_key, mid_key, end_key, build, lower_closed_bound_end_key, upper_open_bound_end_key,
}
use giganto.Store.{Entry}
use giganto.Iter.{decode}
use giganto.Publish.{send_crusher_stored, RequestRange, record_data, multi_get_with_source}
use giganto.Publish.Range.{sends}
use giganto.Publish.Channel.{RequestCrusherStream, filter_ip}
use giganto.Filter.{IpAddr, v4}
use giganto.Publish.Stored.{send_crusher_stored-sends}
use giganto.Publish.Raw.{multi_get_with_source-middle}
use giganto.Tests.{
  table, table-Scans, three_entries, three_entries-Scans, source, source-NoNul, key_at, deserialize,
}

abbrev first_two : RequestRange
first_two = record { source = source; kind = 99 ∷ []; start = pos 10; end = pos 400; count = 2 }

abbrev own_channel : Bytes
own_channel = (99 ∷ []) ++ 0 ∷ (49 ∷ []) ++ 0 ∷ source ++ 0 ∷ 99 ∷ []

abbrev other_channel : Bytes
other_channel = (99 ∷ []) ++ 0 ∷ (49 ∷ []) ++ 0 ∷ (122 ∷ []) ++ 0 ∷ 99 ∷ []

-- A log of the kind `c`.
abbrev log_entry : Entry
log_entry = (build (end_key (mid_key (start_key builder source) (some (99 ∷ []))) (pos 10)), 1 ∷ [])

multi_get_with_source-middle_example :
    multi_get_with_source (table (log_entry ∷ [])) source (pos 10 ∷ []) ≡ []
multi_get_with_source-middle_example =
    multi_get_with_source-middle (table (log_entry ∷ [])) (log_entry ∷ []) source (pos 10 ∷ [])
      (table-Scans (log_entry ∷ []) (tt, tt)) source-NoNul
      ((source, 99 ∷ [], pos 10, source-NoNul, refl), tt)

-- A policy for the events of `src` whose first address is 1.
abbrev policy : RequestCrusherStream
policy = record {
  start = pos 10;
  id = 49 ∷ [];
  src_ip = some (v4 1);
  dst_ip = none;
  source = some source;
}

abbrev first_byte : Bytes → Option IpAddr × Option IpAddr
first_byte v = elim v [ [] ↦ (none, none) | b ∷ bs ↦ (some (v4 b), some (v4 9)) ]

send_crusher_stored-sends_example :
    send_crusher_stored sends nanos deserialize first_byte (table three_entries) policy none
    ≡ (ok (pos 10), record_data (1 ∷ []) (pos 10) source ∷ [])
unfolding cmp end_key start_key mid_key lower_closed_bound_end_key upper_open_bound_end_key
    to_be_bytes to_be decode from_be_bytes of_be filter_ip
send_crusher_stored-sends_example =
    send_crusher_stored-sends first_byte policy nanos deserialize (table three_entries)
      three_entries none source
      ((key_at 10, 1 ∷ []) ∷ (key_at 20, 2 ∷ []) ∷ (key_at 300, 3 ∷ []) ∷ []) three_entries-Scans
      refl refl
      (
        (refl, ((v4 1, v4 9), refl)),
        ((refl, ((v4 2, v4 9), refl)), ((refl, ((v4 3, v4 9), refl)), tt)),
      )
