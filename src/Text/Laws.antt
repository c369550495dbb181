-- ===== src/Text/Laws.antt =====
-- Laws of the trimming functions.
use Prim.Native.Char.{Char}
use lfx_v2_persona_service.Prelude.{
  String, Bool, ◌&&◌, ◌==◌, eq_iff, ◌≡◌, refl, ap, ◌∙◌, arith, Bool-cases, inl, inr,
}
use lfx_v2_persona_service.Text.{is_space, trim_left, trim_right, trim_space}

module _ (cut : Char → Bool) where
  trim_left_idem : (s : String) → trim_left cut (trim_left cut s) ≡ trim_left cut s
  unfolding trim_left
  trim_left_idem String.[] = refl
  trim_left_idem (String.◌∷◌ c s) = ground (arith, trim_left_idem s)

  trim_right_idem : (s : String) → trim_right cut (trim_right cut s) ≡ trim_right cut s
  unfolding trim_right
  trim_right_idem String.[] = refl
  trim_right_idem (String.◌∷◌ c s) = elim (Bool-cases (cut c && trim_right cut s == "")) [
    | inl e ↦ rw e
    | inr e ↦ rw e (rw (trim_right_idem s) (rw e))
  ]

  -- The two ends are trimmed in either order.
  trim_left-trim_right :
      (s : String) → trim_left cut (trim_right cut s) ≡ trim_right cut (trim_left cut s)
  unfolding trim_left trim_right
  trim_left-trim_right String.[] = refl
  trim_left-trim_right (String.◌∷◌ c s) =
      ground (arith, trim_left-trim_right s, eq_iff (trim_right cut s) "")

-- Trimming twice is trimming once.
pub trim_space_idem : (s : String) → trim_space (trim_space s) ≡ trim_space s
unfolding trim_space
trim_space_idem s =
    ap (trim_right is_space) (trim_left-trim_right is_space (trim_left is_space s))
    ∙ trim_right_idem is_space (trim_left is_space (trim_left is_space s))
    ∙ ap (trim_right is_space) (trim_left_idem is_space s)
