-- ===== src/Tests/Pages.antt =====
-- Pages of a store of three events (src/graphql.rs, src/storage.rs).
use giganto.Prelude.{◌≡◌, refl, Bool, not, true, false, none, some, List, [], ◌∷◌, arith}
use giganto.Bytes.{Bytes, cmp, to_be}
use giganto.Int64.{pos, to_be_bytes}
use giganto.Outcome.{Outcome, ok, err}
use giganto.Chrono.{nanos}
use giganto.Key.{start_key, mid_key, end_key, lower_closed_bound_end_key, upper_open_bound_end_key}
use giganto.Store.{equals, forward, reverse_order}
use giganto.Iter.{decode, boundary_iter}
use giganto.Iter.Range.{boundary_iter-forward, boundary_iter-reverse}
use giganto.Page.{Query, get_connection}
use giganto.Page.Walk.{walk, walk-records}
use giganto.Page.Connection.{get_connection-first, get_connection-last}
use giganto.Tests.{
  with_timestamp, table, three_entries, three_entries-Scans, source, key_at, deserialize,
}

-- From 10 to 300, excluded, every event but 7.
abbrev filter : Query nanos Bytes
filter = record {
  check = λ v. ok (not (equals v (7 ∷ [])));
  get_start_key = source;
  get_mid_key = none;
  start = some (pos 10);
  end = some (pos 301);
}

get_connection-first_example :
    get_connection nanos deserialize deserialize
      (table three_entries)
      filter
      none
      none
      (some 2)
      none
    ≡ ok ((key_at 10, 1 ∷ []) ∷ (key_at 20, 2 ∷ []) ∷ [], false, true)
unfolding cmp end_key start_key mid_key lower_closed_bound_end_key upper_open_bound_end_key
    to_be_bytes to_be decode
get_connection-first_example =
    get_connection-first nanos deserialize deserialize (table three_entries) filter three_entries
      three_entries-Scans (some 2) (omega arith)

get_connection-last_example :
    (more : Bool) × (get_connection nanos deserialize deserialize
        (table three_entries)
        filter
        none
        none
        none
        (some 1)
      ≡ ok ((key_at 300, 3 ∷ []) ∷ [], more, false))
unfolding cmp end_key start_key mid_key lower_closed_bound_end_key upper_open_bound_end_key
    to_be_bytes to_be decode
get_connection-last_example =
    get_connection-last nanos deserialize deserialize (table three_entries) filter three_entries
      three_entries-Scans 1 (omega arith)

boundary_iter-forward_example :
    boundary_iter deserialize (table three_entries) (key_at 10) (key_at 25) forward
    ≡ ok (key_at 10, 1 ∷ []) ∷ ok (key_at 20, 2 ∷ []) ∷ []
unfolding cmp end_key start_key to_be_bytes to_be decode
boundary_iter-forward_example =
    boundary_iter-forward deserialize (table three_entries) three_entries (key_at 10) (key_at 25)
      three_entries-Scans

boundary_iter-reverse_example :
    boundary_iter deserialize (table three_entries) (key_at 25) (key_at 5) reverse_order
    ≡ ok (key_at 20, 2 ∷ []) ∷ ok (key_at 10, 1 ∷ []) ∷ []
unfolding cmp end_key start_key to_be_bytes to_be decode
boundary_iter-reverse_example =
    boundary_iter-reverse deserialize (table three_entries) three_entries (key_at 25) (key_at 5)
      three_entries-Scans

abbrev mixed_items : List (Outcome (Bytes × Bytes))
mixed_items = ok (1 ∷ [], 1 ∷ []) ∷ err "corrupt" ∷ ok (2 ∷ [], 7 ∷ []) ∷ ok (3 ∷ [], 3 ∷ []) ∷ []

-- Pages of two.
walk-records_example :
    walk nanos deserialize deserialize (λ k. k) with_timestamp (table three_entries) filter 2 4 none
    ≡ some ((1 ∷ []) ∷ (2 ∷ []) ∷ (3 ∷ []) ∷ [])
unfolding cmp end_key start_key mid_key lower_closed_bound_end_key upper_open_bound_end_key
    to_be_bytes to_be decode
walk-records_example =
    walk-records nanos deserialize deserialize (λ k. k) (λ key. refl) with_timestamp (λ r. r.1)
      (table three_entries) filter three_entries three_entries-Scans 2 (omega arith) 4
      (refl, (refl, (refl, tt))) (omega arith)
