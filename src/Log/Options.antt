-- ===== src/Log/Options.antt =====
-- pkg/log/log.go: the options that `InitStructureLogConfig` gives to the handler of the log.
use mathlib.Core.List.{Permᴰ}
use mathlib.Core.Path.{ap₂}
use lfx_v2_persona_service.Prelude.{
  Bool, false, Option, none, some, List, [], ◌∷◌, ◌≡◌, refl, ap, ◌∙◌,
}
use lfx_v2_persona_service.Config.{Environment}
use lfx_v2_persona_service.Log.{Level, log_level, add_source}

-- `slog.HandlerOptions`; no level is that of the library.
pub record HandlerOptions : Type 0 where
  pub level : Option Level
  pub add_source : Bool

-- The functions of the map `configurations`, by their keys.
pub data Configuration : Type 0 where
  options_log_level options_add_source : Configuration

abbrev pub configurations : List Configuration
configurations = options_log_level ∷ options_add_source ∷ []

unfoldable pub configure : Environment → Configuration → HandlerOptions → HandlerOptions
unfolding log_level add_source
configure env options_log_level o = record o { level = some (log_level (env "LOG_LEVEL")) }
configure env options_add_source o = record o { add_source = add_source (env "LOG_ADD_SOURCE") }

configure_all : Environment → List Configuration → HandlerOptions → HandlerOptions
unfolding configure
configure_all env [] o = o
configure_all env (c ∷ cs) o = configure_all env cs (configure env c o)

-- `InitStructureLogConfig`, given the order in which `range` visits the map.
unfoldable pub init_structure_log_config : Environment → List Configuration → HandlerOptions
unfolding configure_all
init_structure_log_config env order =
    configure_all env order (record { level = none; add_source = false })

configure_comm :
    (env : Environment) (c d : Configuration) (o : HandlerOptions)
    → configure env c (configure env d o) ≡ configure env d (configure env c o)
unfolding configure
configure_comm env options_log_level options_log_level o = refl
configure_comm env options_log_level options_add_source o = refl
configure_comm env options_add_source options_log_level o = refl
configure_comm env options_add_source options_add_source o = refl

configure_all-perm :
    (env : Environment) {cs ds : List Configuration}
    → Permᴰ cs ds
    → (o : HandlerOptions) → configure_all env cs o ≡ configure_all env ds o
unfolding configure_all
configure_all-perm env Permᴰ.nil o = refl
configure_all-perm env (Permᴰ.cons {b = d} {l₁ = l} e p) o =
    ap (λ c. configure_all env l (configure env c o)) e
    ∙ configure_all-perm env p (configure env d o)
configure_all-perm env (Permᴰ.swap {a = c} {b = d} {l = l} e g) o =
    ap (configure_all env l) (configure_comm env d c o)
    ∙ ap₂ (λ a b. configure_all env l (configure env a (configure env b o))) e g
configure_all-perm env (Permᴰ.trans p q) o = configure_all-perm env p o ∙ configure_all-perm env q o

-- The order in which the map is visited does not matter: the level is that of `LOG_LEVEL`, and the source
-- is added as `LOG_ADD_SOURCE` says.
pub init_structure_log_config_lem :
    (env : Environment) (order : List Configuration)
    → Permᴰ order configurations
    → init_structure_log_config env order ≡ record {
      level = some (log_level (env "LOG_LEVEL"));
      add_source = add_source (env "LOG_ADD_SOURCE");
    }
unfolding init_structure_log_config configure_all configure
init_structure_log_config_lem env order p = configure_all-perm env p _
