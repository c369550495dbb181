-- ===== src/Http/Design.antt =====
-- cmd/server/design/persona.go: the API design, from which goa generates the code of gen.
pub mod Conformance
use lfx_v2_persona_service.Prelude.{ℕ, String, List, [], ◌∷◌}

-- `dsl.Method` with its `dsl.HTTP`: the route, the response of a result with its content type, and the
-- responses of the errors that are declared, by their names.
pub record Method : Type 0 where
  pub name : String
  pub verb : String
  pub path : String
  pub ok_status : ℕ
  pub content_type : String
  pub errors : List (String × ℕ)

abbrev pub livez_method : Method
livez_method = record {
  name = "livez";
  verb = "GET";
  path = "/livez";
  ok_status = 200;
  content_type = "text/plain";
  errors = [];
}

abbrev pub readyz_method : Method
readyz_method = record {
  name = "readyz";
  verb = "GET";
  path = "/readyz";
  ok_status = 200;
  content_type = "text/plain";
  errors = ("ServiceUnavailable", 503) ∷ [];
}

-- `dsl.API`
pub record Api : Type 0 where
  pub name : String
  pub title : String
  pub version : String

abbrev pub persona_api : Api
persona_api = record { name = "persona"; title = "LFX v2 Persona Service"; version = "1.0" }

-- `dsl.Service`
pub record ApiService : Type 0 where
  pub name : String
  pub methods : List Method

abbrev pub persona_service : ApiService
persona_service = record { name = "persona-service"; methods = livez_method ∷ readyz_method ∷ [] }
