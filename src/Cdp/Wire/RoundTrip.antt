-- ===== src/Cdp/Wire/RoundTrip.antt =====
-- Affiliations of internal/infrastructure/cdp/models.go as the cache writes and reads them.
use mathlib.Core.Path.{subst}
use lfx_v2_persona_service.Prelude.{
  String, ◌==◌, Option, none, some, ◌≡◌, refl, sym, true, false, All-units, Bool-cases, inl, inr,
  eq_iff, Slice, List, All, elements,
}
use lfx_v2_persona_service.Json.Decode.{decode_slice, fits_int64}
use lfx_v2_persona_service.Json.Encode.{
  encode_slice, decode_slice-encode_slice, decode_items-encode_items,
}
use lfx_v2_persona_service.Runtime.{Runtime}
use lfx_v2_persona_service.Text.{equal_fold}
use lfx_v2_persona_service.Cdp.{ProjectAffiliationRole, ProjectAffiliationEntry, ProjectAffiliation}
use lfx_v2_persona_service.Cdp.Wire.{
  decode_role, encode_role, empty_role, decode_entry, encode_entry, empty_entry, decode_affiliation,
  encode_affiliation, empty_affiliation,
}

-- The counts of these affiliations are values of a Go `int`.
abbrev pub CountsFit : List ProjectAffiliation → Type 0
CountsFit = All (λ a. fits_int64 a.contribution_count ≡ true)

module _ (rt : Runtime) where
  role_with :
      (r : ProjectAffiliationRole) (o : Option String)
      → let r' = record r { end_date = o } in decode_role rt (encode_role r') empty_role ≡ some r'
  unfolding decode_role encode_role equal_fold
  role_with r none = refl
  role_with r (some t) = refl

  decode_role-encode_role :
      (r : ProjectAffiliationRole) → decode_role rt (encode_role r) empty_role ≡ some r
  decode_role-encode_role r = role_with r r.end_date

  entry_with_no_id :
      (r : ProjectAffiliationEntry) (o : Option String)
      → let r' = record r { id = ""; end_date = o } in
        decode_entry rt (encode_entry r') empty_entry ≡ some r'
  unfolding decode_entry encode_entry equal_fold
  entry_with_no_id r none = refl
  entry_with_no_id r (some t) = refl

  entry_with_id :
      (r : ProjectAffiliationEntry) (o : Option String)
      → (r.id == "") ≡ false
      → let r' = record r { end_date = o } in
        decode_entry rt (encode_entry r') empty_entry ≡ some r'
  unfolding decode_entry encode_entry equal_fold
  entry_with_id r none e = rw e
  entry_with_id r (some t) e = rw e

  decode_entry-encode_entry :
      (r : ProjectAffiliationEntry) → decode_entry rt (encode_entry r) empty_entry ≡ some r
  decode_entry-encode_entry r = elim (Bool-cases (r.id == "")) [
    | inl e ↦
        subst
          (λ i.
            let r' = record r { id = i } in decode_entry rt (encode_entry r') empty_entry ≡ some r')
          (sym ((eq_iff r.id "").0 e)) (entry_with_no_id r r.end_date)
    | inr e ↦ entry_with_id r r.end_date e
  ]

  affiliation_with :
      (a : ProjectAffiliation) (roles : Slice ProjectAffiliationRole)
      (entries : Slice ProjectAffiliationEntry)
      → fits_int64 a.contribution_count ≡ true
      → let a' = record a { roles = roles; affiliations = entries } in
        decode_affiliation rt (encode_affiliation a') empty_affiliation ≡ some a'
  unfolding decode_affiliation encode_affiliation equal_fold
  affiliation_with a none none h = rw h
  affiliation_with a none (some es) h = rw (
    h,
    decode_items-encode_items (λ _. Unit {0}) encode_entry empty_entry (decode_entry rt)
        (λ e _. decode_entry-encode_entry e) es (All-units es),
  )
  affiliation_with a (some rs) none h = rw (
    h,
    decode_items-encode_items (λ _. Unit {0}) encode_role empty_role (decode_role rt)
        (λ e _. decode_role-encode_role e) rs (All-units rs),
  )
  affiliation_with a (some rs) (some es) h = rw (
    h,
    decode_items-encode_items (λ _. Unit {0}) encode_role empty_role (decode_role rt)
        (λ e _. decode_role-encode_role e) rs (All-units rs),
    decode_items-encode_items (λ _. Unit {0}) encode_entry empty_entry (decode_entry rt)
        (λ e _. decode_entry-encode_entry e) es (All-units es),
  )

  -- Affiliations whose counts fit a Go int are read back, a nil slice included, from what is written of
  -- them.
  pub decode_affiliations-encode_affiliations :
      (affs : Slice ProjectAffiliation)
      → CountsFit (elements affs)
      → decode_slice empty_affiliation
          (decode_affiliation rt)
          (encode_slice encode_affiliation affs)
          none
        ≡ some affs
  decode_affiliations-encode_affiliations affs h =
      decode_slice-encode_slice (λ a. fits_int64 a.contribution_count ≡ true) encode_affiliation
        empty_affiliation (decode_affiliation rt)
        (λ a fits. affiliation_with a a.roles a.affiliations fits) affs none h
