-- ===== src/Sources/Maps.antt =====
-- Which names a map of `check_sources_conn` (src/ingest.rs) has after an insertion or a removal.
use giganto.Prelude.{
  ◌≡◌, ◌||◌, refl, Bool, true, false, [], ◌∷◌, Bool-cases, inl, inr, arith, ap, any,
}
use giganto.Bytes.{Bytes}
use giganto.Store.{equals}
use giganto.Store.Sorted.{equals→eq}
use giganto.Sources.{Map, remove, insert}

abbrev pub contains_key {ℓ} : {V : Type ℓ} → Bytes → Map V → Bool
contains_key name m = any (λ e. equals e.0 name) m

-- A key equal to one is compared with others as that one is.
equals_cong : (a b c : Bytes) → equals a b ≡ true → equals a c ≡ equals b c
equals_cong a b c h = ap (λ k. equals k c) (equals→eq a b h)

module _ {ℓ} {V : Type ℓ} where
  pub remove-same : (name : Bytes) (m : Map V) → contains_key name (remove name m) ≡ false
  remove-same name [] = refl
  remove-same name (e ∷ m) =
      let h = remove-same name m in
      elim (Bool-cases (equals e.0 name)) [ inl p ↦ ground arith | inr p ↦ ground arith ]

  pub remove-other :
      (name other : Bytes) (m : Map V)
      → equals name other ≡ false
      → contains_key other (remove name m) ≡ contains_key other m
  remove-other name other [] h = refl
  remove-other name other (e ∷ m) h =
      let r = remove-other name other m h in
      elim (Bool-cases (equals e.0 name)) [
        | inl p ↦ (let q = equals_cong e.0 name other p in ground arith)
        | inr p ↦ ground arith
      ]

  pub insert_lem :
      (name other : Bytes) (v : V) (m : Map V)
      → contains_key other (insert name v m) ≡ (equals name other || contains_key other m)
  unfolding insert
  insert_lem name other v m = elim (Bool-cases (equals name other)) [
    | inl p ↦ rw (insert, p) refl
    | inr p ↦ rw (insert, p) (remove-other name other m p)
  ]
