-- ===== src/Sources/Slugs/Replies.antt =====
-- Which replies of the project service give a UID, as `resolveSlugsToUIDs` of message_handler.go reads
-- them.
use mathlib.Core.Option.{some-injective}
use mathlib.Core.Path.{subst}
use Prim.Native.Char.{Char, code}
use package.text.Mathlib.TextLemmas.{cons-append, nil-append, head-eq_of_cons-eq}
use package.text.Mathlib.TextEquality.{Char-path}
use lfx_v2_persona_service.Prelude.{
  ℕ, String, Bool, true, false, ◌||◌, ◌==◌, eq_iff, Bool-cases, inl, inr, none, some, ◌≡◌, refl,
  sym, ◌∙◌, ap, if◌then◌else◌, arith, ◌<>◌, same_num, ◌≢◌, ◌↔◌, ne_of_==,
}
use lfx_v2_persona_service.Json.{Bytes, text}
use lfx_v2_persona_service.Runtime.{Runtime, as_string}
use lfx_v2_persona_service.Text.{trim_space}
use lfx_v2_persona_service.Sources.Slugs.{is_error_reply, reply_text}

-- A reply that gives a UID.
abbrev pub IsUid : String → String → Type 0
IsUid reply uid = (uid ≡ trim_space reply) × (uid ≢ "") × ((rest : String) → reply ≢ "{" <> rest)

empty_text : (rest : String) → "" ≢ "{" <> rest
empty_text rest e = let f = e ∙ cons-append "{" "" rest in cc

same_code : (a b : ℕ) → same_num a b ≡ true → a ≡ b
same_code a b h = ground (arith, h)

-- A text whose first character is no brace does not begin with one.
other_head :
    (c : Char) (s rest : String) → same_num (code c) b'{' ≡ false → String.◌∷◌ c s ≢ "{" <> rest
other_head c s rest h e =
    let heads : code c ≡ b'{' = ap code (head-eq_of_cons-eq (e ∙ cons-append "{" "" rest)) in
    ground (arith, h, heads)

brace_head : (c : Char) (s : String) → same_num (code c) b'{' ≡ true → String.◌∷◌ c s ≡ "{" <> s
brace_head c s h =
    ap (λ d. String.◌∷◌ d s) (Char-path c "{" (same_code _ _ h))
    ∙ sym (cons-append "{" "" s ∙ ap (λ t. String.◌∷◌ "{" t) (nil-append s))

is_error_reply_iff : (s : String) → (is_error_reply s ≡ false) ↔ ((rest : String) → s ≢ "{" <> rest)
unfolding is_error_reply
is_error_reply_iff String.[] = (λ h rest. empty_text rest, λ h. refl)
is_error_reply_iff (String.◌∷◌ c s) = (
  λ h rest. other_head c s rest h,
  λ h. elim (Bool-cases (same_num (code c) b'{')) [
    | inl e ↦ absurd (h s (brace_head c s e))
    | inr e ↦ e
  ],
)

-- The guard of a reply, for any text of it.
guarded_text :
    (reply uid : String) (error : Bool)
    → ((if reply == "" || error then none else some reply) ≡ some uid)
      ↔ ((uid ≡ reply) × (uid ≢ "") × (error ≡ false))
guarded_text reply uid true = (λ h. ground (arith, h), λ h. let (a, b, c) = h in cc)
guarded_text reply uid false = elim (Bool-cases (reply == "")) [
  | inl e ↦ (
    λ h. let refusal = rw e at h in cc,
    λ h. let (a, b, c) = h in absurd (b (a ∙ (eq_iff reply "").0 e)),
  )
  | inr e ↦ (
    λ h.
        let same : reply ≡ uid = some-injective reply uid (rw e at h) in
        (sym same, subst (λ u. u ≢ "") same (ne_of_== reply "" e), refl),
    λ h. let (a, b, c) = h in rw e (ap some (sym a)),
  )
]

pub reply_text-IsUid :
    (rt : Runtime) (resp : Bytes) (uid : String)
    → (reply_text rt resp ≡ some uid) ↔ IsUid (as_string rt resp) uid
unfolding reply_text
reply_text-IsUid rt resp uid =
    let reply = as_string rt resp in
    let (there, back) = guarded_text (trim_space reply) uid (is_error_reply reply) in
    (
      λ h. let (a, b, c) = there h in (a, b, (is_error_reply_iff reply).0 c),
      λ h. let (a, b, c) = h in back (a, b, (is_error_reply_iff reply).1 c),
    )
