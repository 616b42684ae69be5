-- ===== src/Config/Collected.antt =====
-- How `giganto_config` of src/graphql/status.rs puts its results together.
use giganto.Prelude.{◌≡◌, ap, List}
use giganto.Bytes.{Bytes}
use giganto.Outcome.{Outcome, ok, err, ◌>>=◌}
use giganto.Config.{PeerList, GigantoConfig}

-- The configuration of eight results.
abbrev pub collected :
    Outcome Bytes
    → Outcome Bytes
    → Outcome Bytes
    → Outcome Bytes
    → Outcome Bytes
    → Outcome Bytes
    → Outcome Bytes
    → Outcome (List PeerList)
    → Outcome GigantoConfig
collected r1 r2 r3 r4 r5 r6 r7 r8 = do
  a1 ← r1
  a2 ← r2
  a3 ← r3
  a4 ← r4
  a5 ← r5
  a6 ← r6
  a7 ← r7
  a8 ← r8
  ok (record {
    ingest_address = a1;
    publish_address = a2;
    graphql_address = a3;
    retention = a4;
    max_open_files = a5;
    max_mb_of_level_base = a6;
    peer_address = a7;
    peer_list = a8;
  })

-- The results are those of a configuration.
abbrev pub AreOf :
    GigantoConfig
    → Outcome Bytes
    → Outcome Bytes
    → Outcome Bytes
    → Outcome Bytes
    → Outcome Bytes
    → Outcome Bytes
    → Outcome Bytes
    → Outcome (List PeerList)
    → Type 0
AreOf c r1 r2 r3 r4 r5 r6 r7 r8 =
    (r1 ≡ ok c.ingest_address)
    × (r2 ≡ ok c.publish_address)
    × (r3 ≡ ok c.graphql_address)
    × (r4 ≡ ok c.retention)
    × (r5 ≡ ok c.max_open_files)
    × (r6 ≡ ok c.max_mb_of_level_base)
    × (r7 ≡ ok c.peer_address)
    × (r8 ≡ ok c.peer_list)

pub collected-AreOf :
    (c : GigantoConfig) (r1 r2 r3 r4 r5 r6 r7 : Outcome Bytes) (r8 : Outcome (List PeerList))
    → collected r1 r2 r3 r4 r5 r6 r7 r8 ≡ ok c
    → AreOf c r1 r2 r3 r4 r5 r6 r7 r8
collected-AreOf c (err e) r2 r3 r4 r5 r6 r7 r8 h = cc
collected-AreOf c (ok a1) (err e) r3 r4 r5 r6 r7 r8 h = cc
collected-AreOf c (ok a1) (ok a2) (err e) r4 r5 r6 r7 r8 h = cc
collected-AreOf c (ok a1) (ok a2) (ok a3) (err e) r5 r6 r7 r8 h = cc
collected-AreOf c (ok a1) (ok a2) (ok a3) (ok a4) (err e) r6 r7 r8 h = cc
collected-AreOf c (ok a1) (ok a2) (ok a3) (ok a4) (ok a5) (err e) r7 r8 h = cc
collected-AreOf c (ok a1) (ok a2) (ok a3) (ok a4) (ok a5) (ok a6) (err e) r8 h = cc
collected-AreOf c (ok a1) (ok a2) (ok a3) (ok a4) (ok a5) (ok a6) (ok a7) (err e) h = cc
collected-AreOf c (ok a1) (ok a2) (ok a3) (ok a4) (ok a5) (ok a6) (ok a7) (ok a8) h = (
  ap (λ r. r >>= λ x. ok x.ingest_address) h,
  ap (λ r. r >>= λ x. ok x.publish_address) h,
  ap (λ r. r >>= λ x. ok x.graphql_address) h,
  ap (λ r. r >>= λ x. ok x.retention) h,
  ap (λ r. r >>= λ x. ok x.max_open_files) h,
  ap (λ r. r >>= λ x. ok x.max_mb_of_level_base) h,
  ap (λ r. r >>= λ x. ok x.peer_address) h,
  ap (λ r. r >>= λ x. ok x.peer_list) h,
)
