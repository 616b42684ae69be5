-- ===== src/Families/Laws.antt =====
-- The accessors of src/storage.rs reach every family that the database opens, each one its own.
use text.Mathlib.Text.{◌==◌ as str_eq}
use giganto.Prelude.{
  ◌≡◌, refl, sym, ap, ◌∙◌, Bool, true, false, not, Option, none, some, List, [], ◌∷◌, String, All,
  All-every, select, Bool-cases, inl, inr, if◌then◌else◌,
}
use giganto.Families.{
  Accessor, conn, dns, log, http, rdp, periodic_time_series, smtp, ntlm, kerberos, ssh, dce_rpc,
  statistics, op_log, packet, ftp, mqtt, ldap, tls, smb, nfs, process_create, file_create_time,
  network_connect, process_terminate, image_load, file_create, registry_value_set,
  registry_key_rename, file_create_stream_hash, pipe_event, dns_query, file_delete, process_tamper,
  file_delete_detected, netflow5, netflow9, secu_log, sources, cf_name, open_store, member,
  retain_stores, retain_period_store, opened, HasHandles, non_standard_cfs,
  raw_data_column_family_names,
}

abbrev accessors : List Accessor
accessors =
    conn ∷ dns ∷ log ∷ http ∷ rdp ∷ periodic_time_series ∷ smtp ∷ ntlm ∷ kerberos ∷ ssh ∷ dce_rpc
    ∷ statistics ∷ op_log ∷ packet ∷ ftp ∷ mqtt ∷ ldap ∷ tls ∷ smb ∷ nfs ∷ process_create
    ∷ file_create_time ∷ network_connect ∷ process_terminate ∷ image_load ∷ file_create
    ∷ registry_value_set ∷ registry_key_rename ∷ file_create_stream_hash ∷ pipe_event ∷ dns_query
    ∷ file_delete ∷ process_tamper ∷ file_delete_detected ∷ netflow5 ∷ netflow9 ∷ secu_log ∷ sources
    ∷ []

-- The accessor of a family.
accessor_from : List Accessor → String → Option Accessor
unfolding cf_name
accessor_from [] name = none
accessor_from (a ∷ as') name =
    let rest = accessor_from as' name in if str_eq (cf_name a) name then some a else rest

accessor_from-cf_name : (a : Accessor) → accessor_from accessors (cf_name a) ≡ some a
unfolding accessor_from
accessor_from-cf_name conn = refl
accessor_from-cf_name _ = refl

-- No two accessors share a column family.
pub cf_name_injective : (a b : Accessor) → cf_name a ≡ cf_name b → a ≡ b
cf_name_injective a b h =
    let p : some a ≡ some b =
      sym (accessor_from-cf_name a) ∙ ap (accessor_from accessors) h ∙ accessor_from-cf_name b in
    cc

pub member-opened : (a : Accessor) → member (cf_name a) opened ≡ true
unfolding member cf_name
member-opened conn = refl
member-opened _ = refl

-- The accessors whose stores the retention of whole ranges covers: all raw data but the families of
-- other keys.
abbrev pub is_standard : Accessor → Bool
is_standard log = false
is_standard periodic_time_series = false
is_standard statistics = false
is_standard op_log = false
is_standard packet = false
is_standard secu_log = false
is_standard sources = false
is_standard _ = true

raw_names_opened : All (λ n. member n opened ≡ true) raw_data_column_family_names
unfolding member
raw_names_opened = All-every (λ n. member n opened) raw_data_column_family_names refl

standard :
    (a : Accessor)
    → member
        (cf_name a)
        (select (λ n. not (member n non_standard_cfs)) raw_data_column_family_names)
      ≡ is_standard a
unfolding member cf_name
standard conn = refl
standard _ = refl

module _ (cf_handle : String → Option String) (handles : HasHandles cf_handle) where
  -- In a database that `open` has opened every accessor finds the column family that it asks for.
  pub open_store-found : (a : Accessor) → open_store cf_handle a ≡ some (cf_name a)
  unfolding open_store
  open_store-found a = handles (cf_name a) (member-opened a)

  -- In a database that `open` has opened no two accessors find the same column family.
  pub open_store_unique : (a b : Accessor) → open_store cf_handle a ≡ open_store cf_handle b → a ≡ b
  open_store_unique a b e =
      cf_name_injective a b (some_inj (sym (open_store-found a) ∙ e ∙ open_store-found b))
    where
      some_inj : some (cf_name a) ≡ some (cf_name b) → cf_name a ≡ cf_name b
      some_inj e = cc

  retain_stores-eq :
      (names : List String)
      → All (λ n. cf_handle n ≡ some n) names
      → retain_stores cf_handle names ≡ some (select (λ n. not (member n non_standard_cfs)) names)
  unfolding retain_stores
  retain_stores-eq [] h = refl
  retain_stores-eq (n ∷ names) h = elim (Bool-cases (not (member n non_standard_cfs))) [
    | inl e ↦ rw (e, h.0, retain_stores-eq names h.1)
    | inr e ↦ rw e (retain_stores-eq names h.1)
  ]

  have_handles :
      (names : List String)
      → All (λ n. member n opened ≡ true) names
      → All (λ n. cf_handle n ≡ some n) names
  have_handles [] h = tt
  have_handles (n ∷ names) h = (handles n h.0, have_handles names h.1)

  -- In a database that `open` has opened `retain_period_store` succeeds, and of the accessors it
  -- has exactly the families of those that are not listed as of another form of key.
  pub retain_period_store-standard :
      (cfs : List String) × (retain_period_store cf_handle ≡ some cfs)
      × ((a : Accessor) → member (cf_name a) cfs ≡ is_standard a)
  unfolding retain_period_store
  retain_period_store-standard = (
    select (λ n. not (member n non_standard_cfs)) raw_data_column_family_names,
    retain_stores-eq raw_data_column_family_names
        (have_handles raw_data_column_family_names raw_names_opened),
    standard,
  )
