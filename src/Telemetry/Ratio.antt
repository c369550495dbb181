-- ===== src/Telemetry/Ratio.antt =====
-- The ratio of the sampler of pkg/utils/otel.go.
use lfx_v2_persona_service.Prelude.{
  String, ◌==◌, Bool, true, false, Bool-cases, inl, inr, Option, none, some, if◌then◌else◌, ◌≡◌,
}
use lfx_v2_persona_service.Config.{Environment}
use lfx_v2_persona_service.Runtime.{Runtime}
use lfx_v2_persona_service.Telemetry.{
  Floats, Sampler, always_sample, never_sample, trace_id_ratio_based, parent_based, checked_ratio,
  parse_ratio, sampler_from_env,
}

-- Every ratio of the sampler is one that the SDK takes.
pub data HasRatio {F : Type 0} (fl : Floats F) : Sampler F → Type 0 where
  always : HasRatio fl always_sample
  never : HasRatio fl never_sample
  by_ratio : (r : F) → fl.is_ratio r ≡ true → HasRatio fl (trace_id_ratio_based r)
  by_parent : (s : Sampler F) → HasRatio fl s → HasRatio fl (parent_based s)

module _ {F : Type 0} (fl : Floats F) (one_is : fl.is_ratio fl.one ≡ true) where
  checked : (r : Option F) → fl.is_ratio (checked_ratio fl r) ≡ true
  unfolding checked_ratio
  checked none = one_is
  checked (some r) = elim (Bool-cases (fl.is_ratio r)) [ inl e ↦ rw (e) e | inr e ↦ rw (e) one_is ]

  parsed : (s : String) → fl.is_ratio (parse_ratio fl s) ≡ true
  unfolding parse_ratio
  parsed s = elim (Bool-cases (s == "")) [
    | inl e ↦ rw (e) one_is
    | inr e ↦ rw (e) (checked (fl.parse_float s))
  ]

  chosen :
      (b : Bool) (s t : Sampler F)
      → HasRatio fl s
      → HasRatio fl t
      → HasRatio fl (if b then s else t)
  chosen true s t e f = e
  chosen false s t e f = f

  -- If 1 is a ratio, then whatever the two variables hold, the ratio of the sampler that they choose, if
  -- it has one, is from 0 to 1.
  pub sampler_from_env-HasRatio :
      (rt : Runtime) (env : Environment) → HasRatio fl (sampler_from_env fl rt env)
  unfolding sampler_from_env
  sampler_from_env-HasRatio rt env = chosen _ _ _ always (
      chosen _ _ _ never (
        chosen _ _ _ (by_ratio _ (parsed _)) (
          chosen _ _ _ (by_parent _ always)
            (chosen _ _ _ (by_parent _ never) (by_parent _ (by_ratio _ (parsed _)))))))
