-- ===== src/Cdp/Cache/Laws.antt =====
-- Lookups after puts in the cache of internal/infrastructure/cdp/cache.go, over a lawful bucket.
use Prim.Native.Char.{code}
use text.Mathlib.TextLemmas.{append_assoc, append_cancel_left, cons-append, head-eq_of_cons-eq}
use lfx_v2_persona_service.Prelude.{
  ℕ, ◌-◌, ◌*◌, ◌^◌, leb, Option, true, Bool-cases, inl, inr, if◌then◌else◌, String, ◌<>◌, eq_refl,
  ==_of_ne, none, some, Slice, ◌≡◌, ◌≢◌, refl, sym, ap, ◌∙◌, elements, arith,
}
use lfx_v2_persona_service.Json.{Bytes, document}
use lfx_v2_persona_service.Json.Encode.{encode_slice}
use lfx_v2_persona_service.Runtime.{Runtime}
use lfx_v2_persona_service.Cdp.{ProjectAffiliation}
use lfx_v2_persona_service.Cdp.Wire.{encode_affiliation}
use lfx_v2_persona_service.Cdp.Wire.RoundTrip.{CountsFit, decode_affiliations-encode_affiliations}
use lfx_v2_persona_service.Cdp.Cache.{
  KeyValue, IsLawful, Cached, miss, member_id_key, affiliations_key, get_member_id, put_member_id,
  get_affiliations, put_affiliations,
}

-- The two families of keys share no key.
pub member_id_key-ne-affiliations_key : (u m : String) → member_id_key u ≢ affiliations_key m
member_id_key-ne-affiliations_key u m e =
    let tails : "member_id." <> u ≡ "affiliations." <> m =
      append_cancel_left "cdp." _ _
        (sym (append_assoc "cdp." "member_id." u) ∙ e ∙ append_assoc "cdp." "affiliations." m) in
    let heads : ◌≡◌ {A = ℕ} b'm' b'a' = ap code (
      head-eq_of_cons-eq
        (sym (cons-append "m" "ember_id." u) ∙ tails ∙ cons-append "a" "ffiliations." m)) in
    absurd (omega arith)

-- What a lookup at a time says of a value and the time of its put, if there was one: it is a miss once
-- it has lived for `ttl`, and stale once it is ten minutes old.
abbrev pub recall : {A : Type 0} → ℕ → A → ℕ → Option (A × ℕ) → Cached A
recall ttl nothing now none = record { value = nothing; result = miss; error = none }
recall ttl nothing now (some (a, created)) =
    if leb ttl (now - created)
    then record { value = nothing; result = miss; error = none }
    else record {
      value = a;
      result = record { hit = true; stale = leb (600 * 10 ^ 9) (now - created) };
      error = none;
    }

module _ (rt : Runtime) (S : KeyValue) (ttl : ℕ) (L : IsLawful S ttl) (s : S.State)
    (then_ now : ℕ) where
  -- A member ID whose put succeeded is recalled under its username.
  pub get_member_id-put_member_id :
      (u id : String)
      → (S.put s then_ (member_id_key u) (Bytes.text id)).1 ≡ none
      → get_member_id rt S (put_member_id rt S (some s) then_ u id) now u
        ≡ recall ttl "" now (some (id, then_))
  unfolding get_member_id put_member_id
  get_member_id-put_member_id u id e =
      rw (L.get-put s then_ now (member_id_key u) (Bytes.text id) (member_id_key u) e, eq_refl)
        (elim (Bool-cases (leb ttl (now - then_))) [ inl f ↦ rw f refl | inr f ↦ rw f refl ])

  -- Affiliations whose counts fit a Go int and whose put succeeded are recalled under their member.
  pub get_affiliations-put_affiliations :
      (id : String) (affs : Slice ProjectAffiliation)
      → CountsFit (elements affs)
      → (S.put s then_ (affiliations_key id) (document (encode_slice encode_affiliation affs))).1
        ≡ none
      → get_affiliations rt S (put_affiliations rt S (some s) then_ id affs) now id
        ≡ recall ttl none now (some (affs, then_))
  unfolding get_affiliations put_affiliations
  get_affiliations-put_affiliations id affs fits e =
      rw (L.get-put s then_ now (affiliations_key id) _ (affiliations_key id) e, eq_refl)
        (elim (Bool-cases (leb ttl (now - then_))) [
          | inl f ↦ rw f refl
          | inr f ↦ rw (f, decode_affiliations-encode_affiliations rt affs fits) refl
        ])

  -- A member ID whose put succeeded leaves every lookup of affiliations as it was.
  pub get_affiliations-put_member_id :
      (u id m : String)
      → (S.put s then_ (member_id_key u) (Bytes.text id)).1 ≡ none
      → get_affiliations rt S (put_member_id rt S (some s) then_ u id) now m
        ≡ get_affiliations rt S (some s) now m
  unfolding get_affiliations put_member_id
  get_affiliations-put_member_id u id m e =
      rw
        (
          L.get-put s then_ now (member_id_key u) (Bytes.text id) (affiliations_key m) e,
          ==_of_ne (member_id_key u) (affiliations_key m) (member_id_key-ne-affiliations_key u m),
        )
        refl

  -- Affiliations whose put succeeded leave every lookup of a member ID as it was.
  pub get_member_id-put_affiliations :
      (id u : String) (affs : Slice ProjectAffiliation)
      → (S.put s then_ (affiliations_key id) (document (encode_slice encode_affiliation affs))).1
        ≡ none
      → get_member_id rt S (put_affiliations rt S (some s) then_ id affs) now u
        ≡ get_member_id rt S (some s) now u
  unfolding get_member_id put_affiliations
  get_member_id-put_affiliations id u affs e =
      rw
        (
          L.get-put s then_ now (affiliations_key id) _ (member_id_key u) e,
          ==_of_ne (affiliations_key id) (member_id_key u)
              (λ p. member_id_key-ne-affiliations_key u id (sym p)),
        )
        refl
