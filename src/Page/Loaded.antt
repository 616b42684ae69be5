-- ===== src/Page/Loaded.antt =====
-- `load_connection` of src/graphql.rs: the edges of a page. Base64 is a parameter, and so is the
-- conversion of a record into its GraphQL object.
use giganto.Prelude.{ℕ, Bool, Option, List, [], ◌∷◌}
use giganto.Bytes.{Bytes}
use giganto.Chrono.{Chrono}
use giganto.Export.File.{Ended, returned, panicked}
use giganto.Outcome.{Outcome, ok, err}
use giganto.Page.{Query, get_connection}
use giganto.Store.{RawEventStore}

-- The edges, each a cursor and a node, and whether there is a previous and a next page.
abbrev pub Loaded : Type 0 → Type 0
Loaded N = List (Bytes × N) × Bool × Bool

module _ (c : Chrono) {T N : Type 0} (deserialize : Bytes → Outcome T)
    (decode : Bytes → Outcome Bytes) (encode : Bytes → Bytes)
    (from_key_value : Bytes → T → Outcome N) (store : RawEventStore) (filter : Query c T) where
  -- `expect` panics at the first record that cannot be converted.
  unfoldable pub edges_of : List (Bytes × T) → Ended (List (Bytes × N))
  edges_of [] = returned (ok [])
  edges_of ((key, node) ∷ records) =
      let later = edges_of records in
      elim (from_key_value key node) [
        | err e ↦ panicked "failed to convert value"
        | ok n ↦ elim later [
          | panicked m ↦ panicked m
          | returned r ↦ elim r [
            | err e ↦ returned (err e)
            | ok edges ↦ returned (ok ((encode key, n) ∷ edges))
          ]
        ]
      ]

  unfoldable pub load_connection :
      Option Bytes → Option Bytes → Option ℕ → Option ℕ → Ended (Loaded N)
  unfolding edges_of
  load_connection after before first last =
      elim (get_connection c deserialize decode store filter after before first last) [
        | err e ↦ returned (err e)
        | ok (records, has_previous, has_next) ↦ elim (edges_of records) [
          | panicked m ↦ panicked m
          | returned r ↦ elim r [
            | err e ↦ returned (err e)
            | ok edges ↦ returned (ok (edges, has_previous, has_next))
          ]
        ]
      ]
