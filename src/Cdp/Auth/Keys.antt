-- ===== src/Cdp/Auth/Keys.antt =====
-- The two forms in which internal/infrastructure/cdp/auth.go takes a private key.
use Prim.Native.Char.{Char}
use text.Mathlib.TextEquality.{starts_with_iff}
use lfx_v2_persona_service.Prelude.{
  ℕ, String, ◌<>◌, Bool, true, false, ◌&&◌, ◌==◌, ◌≡◌, refl, ap, arith, starts_with, Bool-cases,
  inl, inr, ok,
}
use lfx_v2_persona_service.Text.{is_space, trim_left, trim_right, trim_space}
use lfx_v2_persona_service.Username.Filters.{has, has-append}
use lfx_v2_persona_service.Cdp.Auth.{KeyLibrary, decode_private_key}

has-trim_left :
    (sep : ℕ) (cut : Char → Bool) (s : String)
    → has sep s ≡ false
    → has sep (trim_left cut s) ≡ false
unfolding has trim_left
has-trim_left sep cut String.[] h = refl
has-trim_left sep cut (String.◌∷◌ c s) h = ground (arith, has-trim_left sep cut s)

has-trim_right :
    (sep : ℕ) (cut : Char → Bool) (s : String)
    → has sep s ≡ false
    → has sep (trim_right cut s) ≡ false
unfolding has trim_right
has-trim_right sep cut String.[] h = refl
has-trim_right sep cut (String.◌∷◌ c s) h = elim (Bool-cases (cut c && trim_right cut s == "")) [
  | inl e ↦ rw e refl
  | inr e ↦ rw e (
      let rest : has sep s ≡ false = ground (arith, h) in
      let ih = has-trim_right sep cut s rest in ground (arith, h, ih))
]

starts_with-has :
    (s t : String) (sep : ℕ) → has sep t ≡ true → has sep s ≡ false → starts_with s t ≡ false
starts_with-has s t sep in_t not_in_s = elim (Bool-cases (starts_with s t)) [
  | inr no_prefix ↦ no_prefix
  | inl is_prefix ↦
      let (rest, e) = (starts_with_iff s t).0 is_prefix in
      let found : has sep (t <> rest) ≡ true = rw (has-append, in_t) refl in
      let same : has sep (t <> rest) ≡ has sep s = ap (has sep) e in cc
]

-- With a library whose encoding has no hyphen and decodes to the text that was encoded: a key in PEM
-- and the same PEM in base64 give the same key, or the same error.
pub decode_private_key_encoded :
    {Key : Type 0} (lib : KeyLibrary Key) (encode : String → String)
    → ((s : String) → lib.decode_base64 (encode s) ≡ ok s)
    → ((s : String) → has b'-' (encode s) ≡ false)
    → (pem : String) → starts_with (trim_space pem) "-----BEGIN" ≡ true
    → decode_private_key lib (encode pem) ≡ decode_private_key lib pem
unfolding decode_private_key trim_space has
decode_private_key_encoded lib encode back plain pem begins =
    let encoded : starts_with (trim_space (encode pem)) "-----BEGIN" ≡ false =
      starts_with-has (trim_space (encode pem)) "-----BEGIN" b'-' refl (
        has-trim_right b'-' is_space (trim_left is_space (encode pem))
          (has-trim_left b'-' is_space (encode pem) (plain pem))) in
    rw (encoded, begins, back pem) refl
