-- ===== src/Errors.antt =====
-- pkg/errors: the error values of the application, and the texts of errors.
use Prim.Native.String.{char_at}
use lfx_v2_persona_service.Prelude.{
  ℕ, suc, zero, true, false, ◌/◌, ◌%◌, String, ◌<>◌, Option, none, some, List, [], ◌∷◌, ltb, Error,
  message, status, wrap, unavailable,
}
use lfx_v2_persona_service.Text.{join}

-- `base`: a message and the text of the wrapped errors, which is all that leaves the package of them.
pub record Base : Type 0 where
  pub message : String
  pub err : Option String

-- The four types of the package, each around a `base`.
pub data AppError : Type 0 where
  validation : Base → AppError
  not_found : Base → AppError
  unexpected : Base → AppError
  service_unavailable : Base → AppError

-- `base.error`
unfoldable pub base_error : Base → String
base_error b = elim b.err [ none ↦ b.message | some e ↦ b.message <> ": " <> e ]

-- `Error` of the four types.
unfoldable pub app_error_text : AppError → String
unfolding base_error
app_error_text (validation b) = base_error b
app_error_text (not_found b) = base_error b
app_error_text (unexpected b) = base_error b
app_error_text (service_unavailable b) = base_error b

-- The texts of the errors that are not nil.
unfoldable pub present : List (Option String) → List String
present [] = []
present (none ∷ es) = present es
present (some e ∷ es) = e ∷ present es

-- `errors.Join`: nil if no error is left, otherwise their texts in lines.
unfoldable pub join_errors : List (Option String) → Option String
unfolding present join
join_errors es = elim (present es) [ [] ↦ none | t ∷ ts ↦ some (join "\n" (t ∷ ts)) ]

abbrev based : String → List (Option String) → Base
based text errs = record { message = text; err = join_errors errs }

unfoldable pub new_validation : String → List (Option String) → AppError
unfolding join_errors
new_validation text errs = validation (based text errs)

unfoldable pub new_not_found : String → List (Option String) → AppError
unfolding join_errors
new_not_found text errs = not_found (based text errs)

unfoldable pub new_unexpected : String → List (Option String) → AppError
unfolding join_errors
new_unexpected text errs = unexpected (based text errs)

unfoldable pub new_service_unavailable : String → List (Option String) → AppError
unfolding join_errors
new_service_unavailable text errs = service_unavailable (based text errs)

-- An error of this package as any other error.
unfoldable pub app_error : AppError → Error
unfolding app_error_text
app_error e = message (app_error_text e)

-- A number in decimal: `limit` digits are enough for a number below ten to that power.
decimal : ℕ → ℕ → String
decimal zero n = ""
decimal (suc limit) n = elim (ltb n 10) [
  | true ↦ String.◌∷◌ (char_at "0123456789" n) ""
  | false ↦ decimal limit (n / 10) <> String.◌∷◌ (char_at "0123456789" (n % 10)) ""
]

-- `Error()`; a status of HTTP has at most twenty digits.
unfoldable pub error_text : Error → String
unfolding decimal
error_text (message text) = text
error_text (status text code) = text <> " " <> decimal 20 code
error_text (wrap text e) = text <> ": " <> error_text e
error_text (unavailable text) = "Service unavailable"
