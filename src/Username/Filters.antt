-- ===== src/Username/Filters.antt =====
-- Usernames of internal/service/username_validation.go in a comma-separated list of clauses.
use Prim.Native.Char.{Char, code}
use mathlib.Core.Path.{ap₂}
use text.Mathlib.TextLemmas.{append_assoc, nil-append, append-nil, cons-append}
use lfx_v2_persona_service.Prelude.{
  ℕ, String, ◌<>◌, Bool, true, false, ◌||◌, List, [], ◌∷◌, All, same_num, if◌then◌else◌, ◌≡◌, refl,
  sym, ap, ◌∙◌, Bool-cases, inl, inr, arith, eq_iff, ◌==◌,
}
use lfx_v2_persona_service.Text.{join}
use lfx_v2_persona_service.Username.{is_allowed, all_allowed, is_valid_query_username}

-- Whether a text has a character of this code.
unfoldable pub has : ℕ → String → Bool
has sep String.[] = false
has sep (String.◌∷◌ c s) = same_num (code c) sep || has sep s

-- Text cut at each separator, as the receiver of a list of clauses cuts it; `cur` was read before.
unfoldable pub cut : ℕ → String → String → List String
cut sep cur String.[] = cur ∷ []
cut sep cur (String.◌∷◌ c s) =
    let next = cut sep "" s in
    let longer = cut sep (cur <> String.◌∷◌ c "") s in
    if same_num (code c) sep then cur ∷ next else longer

-- A text with no separator is one piece.
cut-has : (sep : ℕ) (cur s : String) → has sep s ≡ false → cut sep cur s ≡ (cur <> s) ∷ []
unfolding cut has
cut-has sep cur String.[] h = ap (λ t. t ∷ []) (sym (append-nil cur))
cut-has sep cur (String.◌∷◌ c s) h = ground (
  arith,
  cut-has sep (cur <> String.◌∷◌ c "") s,
  append_assoc cur (String.◌∷◌ c "") s,
  cons-append c "" s,
  nil-append s,
)

-- A separator ends the piece before it.
cut_at :
    (cur s t : String)
    → has b',' s ≡ false
    → cut b',' cur (s <> ("," <> t)) ≡ (cur <> s) ∷ cut b',' "" t
unfolding cut has
cut_at cur String.[] t h =
    rw (nil-append, cons-append "," "" t, nil-append)
      (ap (λ x. x ∷ cut b',' "" t) (sym (append-nil cur)))
cut_at cur (String.◌∷◌ c s) t h = rw (cons-append c s ("," <> t)) (
    ground (
      arith,
      cut_at (cur <> String.◌∷◌ c "") s t,
      append_assoc cur (String.◌∷◌ c "") s,
      cons-append c "" s,
      nil-append s,
    ))

pub has-append : (sep : ℕ) (s t : String) → has sep (s <> t) ≡ (has sep s || has sep t)
unfolding has
has-append sep String.[] t = rw nil-append
has-append sep (String.◌∷◌ c s) t = rw cons-append (ground (arith, has-append sep s t))

-- Clauses without the separator come back whole from the text that joins them.
pub cut-join :
    (x : String) (xs : List String)
    → All (λ s. has b',' s ≡ false) (x ∷ xs)
    → cut b',' "" (join "," (x ∷ xs)) ≡ x ∷ xs
unfolding join
cut-join x [] (h, _) = cut-has b',' "" x h ∙ ap (λ t. t ∷ []) (nil-append x)
cut-join x (y ∷ xs) (h, hs) =
    cut_at "" x (join "," (y ∷ xs)) h ∙ ap₂ (λ u l. u ∷ l) (nil-append x) (cut-join y xs hs)

-- Every piece is free of the separator.
pub cut-pieces :
    (sep : ℕ) (cur s : String) → has sep cur ≡ false → All (λ t. has sep t ≡ false) (cut sep cur s)
unfolding cut has
cut-pieces sep cur String.[] h = (h, tt)
cut-pieces sep cur (String.◌∷◌ c s) h = elim (Bool-cases (same_num (code c) sep)) [
  | inl e ↦ rw e (h, cut-pieces sep "" s refl)
  | inr e ↦ rw e (cut-pieces sep (cur <> String.◌∷◌ c "") s (rw has-append (ground arith)))
]

-- Each allowed character is none of the separators of the query language.
all_allowed-has :
    (sep : ℕ) (s : String)
    → ((c : Char) → is_allowed c ≡ true → same_num (code c) sep ≡ false)
    → all_allowed s ≡ true
    → has sep s ≡ false
unfolding all_allowed has
all_allowed-has sep String.[] d h = refl
all_allowed-has sep (String.◌∷◌ c s) d h = ground (arith, d c, all_allowed-has sep s d)

not_comma : (c : Char) → is_allowed c ≡ true → same_num (code c) b',' ≡ false
unfolding is_allowed
not_comma c h = ground arith

not_colon : (c : Char) → is_allowed c ≡ true → same_num (code c) b':' ≡ false
unfolding is_allowed
not_colon c h = ground arith

not_star : (c : Char) → is_allowed c ≡ true → same_num (code c) b'*' ≡ false
unfolding is_allowed
not_star c h = ground arith

not_quote : (c : Char) → is_allowed c ≡ true → same_num (code c) 34 ≡ false
unfolding is_allowed
not_quote c h = ground arith

-- A valid username has no comma, colon, wildcard or double quote.
pub valid_username-has :
    (u : String)
    → is_valid_query_username u ≡ true
    → (has b',' u ≡ false) × (has b':' u ≡ false) × (has b'*' u ≡ false) × (has 34 u ≡ false)
unfolding is_valid_query_username has
valid_username-has u h = elim (Bool-cases (u == "")) [
  | inl e ↦ rw ((eq_iff u "").0 e) (refl, refl, refl, refl)
  | inr e ↦
      let a : all_allowed u ≡ true = (rw e at h) in
      (
        all_allowed-has b',' u not_comma a,
        all_allowed-has b':' u not_colon a,
        all_allowed-has b'*' u not_star a,
        all_allowed-has 34 u not_quote a,
      )
]
