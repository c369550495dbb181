-- ===== src/Cdp/Auth.antt =====
-- internal/infrastructure/cdp/auth.go: the token provider, over the libraries for keys, JWT and OAuth.
pub mod Keys
use lfx_v2_persona_service.Prelude.{
  ℕ, ◌+◌, ◌*◌, ◌^◌, String, ◌<>◌, ◌==◌, Bool, true, false, Option, none, some, List, [], ◌∷◌, Slice,
  if◌then◌else◌, starts_with, Error, message, Result, ok, err, wrapping, ◌>>=◌, ◌≡◌,
}
use lfx_v2_persona_service.Text.{trim_space, trim_slashes, split}

-- Nanoseconds.
abbrev pub token_expiry_buffer : ℕ
token_expiry_buffer = 300 * 10 ^ 9

abbrev pub token_fetch_timeout : ℕ
token_fetch_timeout = 30 * 10 ^ 9

-- What pem.Decode finds first in a text: the type of a block and its bytes.
pub record PemBlock : Type 0 where
  pub kind : String
  pub content : String

-- The libraries for keys: byte strings are texts; a PKCS8 key of another kind than RSA is `none`.
pub record KeyLibrary (Key : Type 0) : Type 0 where
  pub decode_base64 : String → Result String
  pub decode_pem : String → Option PemBlock
  pub parse_pkcs1 : String → Result Key
  pub parse_pkcs8 : String → Result (Option Key)

pub record TokenProviderConfig : Type 0 where
  pub issuer_base_url : String
  pub client_id : String
  pub audience : String
  pub scopes : String
  pub private_key_base64 : String

-- `assertionTokenSource`
pub record AssertionTokenSource (Key : Type 0) : Type 0 where
  pub client_id : String
  pub audience : String
  pub token_url : String
  pub scopes : Slice String
  pub private_key : Key

-- `jwt.RegisteredClaims`; times are nanoseconds, which the library cuts to seconds.
pub record Claims : Type 0 where
  pub issuer : String
  pub subject : String
  pub audience : List String
  pub expires_at : ℕ
  pub issued_at : ℕ
  pub id : String

-- `clientcredentials.Config`
pub record TokenRequest : Type 0 where
  pub client_id : String
  pub token_url : String
  pub scopes : Slice String
  pub endpoint_params : List (String × String)

pub record OauthToken : Type 0 where
  pub access_token : String
  pub expiry : ℕ

module _ {Key : Type 0} (lib : KeyLibrary Key) where
  unfoldable pub parse_block : PemBlock → Result Key
  parse_block block =
      if block.kind == "RSA PRIVATE KEY"
      then lib.parse_pkcs1 block.content
      else if block.kind == "PRIVATE KEY"
      then elim (lib.parse_pkcs8 block.content) [
        | err e ↦ err (Error.wrap "parse PKCS8 private key" e)
        | ok none ↦ err (message "PKCS8 key is not RSA")
        | ok (some key) ↦ ok key
      ]
      else err (message ("unsupported PEM block type: " <> block.kind))

  unfoldable pub parse_pem : String → Result Key
  unfolding parse_block
  parse_pem key_bytes = elim (lib.decode_pem key_bytes) [
    | none ↦ err (message "no PEM block found in decoded private key")
    | some block ↦ parse_block block
  ]

  -- A text that begins as PEM is taken as it is, any other is decoded first.
  unfoldable pub decode_private_key : String → Result Key
  unfolding parse_pem trim_space
  decode_private_key b64 =
      (if starts_with (trim_space b64) "-----BEGIN"
        then ok b64
        else wrapping "decode private key base64" (lib.decode_base64 b64))
      >>= parse_pem

  unfoldable pub new_token_provider : TokenProviderConfig → Result (AssertionTokenSource Key)
  unfolding decode_private_key split trim_slashes
  new_token_provider cfg = decode_private_key cfg.private_key_base64 >>= λ key. ok (record {
    client_id = cfg.client_id;
    audience = cfg.audience;
    token_url = trim_slashes cfg.issuer_base_url <> "/oauth/token";
    scopes = if cfg.scopes == "" then none else some (split b' ' cfg.scopes);
    private_key = key;
  })

-- The exchange of tokens: the signature of claims, the token endpoint, and the cache of
-- `oauth2.ReuseTokenSourceWithExpiry`: from the buffer, the token kept, if any, the time and what the source would
-- give, the token and what is kept.
pub record TokenLibrary (Key : Type 0) : Type 0 where
  pub sign : Claims → Key → Result String
  pub exchange : TokenRequest → Result OauthToken
  pub reuse : ℕ → Option OauthToken → ℕ → Result OauthToken → Result OauthToken × Option OauthToken

module _ {Key : Type 0} (lib : TokenLibrary Key) where
  abbrev claims_of : AssertionTokenSource Key → ℕ → String → Claims
  claims_of s now id = record {
    issuer = s.client_id;
    subject = s.client_id;
    audience = s.token_url ∷ [];
    expires_at = now + 300 * 10 ^ 9;
    issued_at = now;
    id = id;
  }

  -- `id` is the UUID drawn for the assertion.
  unfoldable pub sign_assertion : AssertionTokenSource Key → ℕ → String → Result String
  sign_assertion s now id = lib.sign (claims_of s now id) s.private_key

  unfoldable pub token_request : AssertionTokenSource Key → String → TokenRequest
  token_request s assertion = record {
    client_id = s.client_id;
    token_url = s.token_url;
    scopes = s.scopes;
    endpoint_params =
        ("audience", s.audience)
        ∷ ("client_assertion_type", "urn:ietf:params:oauth:client-assertion-type:jwt-bearer")
        ∷ ("client_assertion", assertion)
        ∷ [];
  }

  -- `Token` of the source.
  unfoldable pub fetch_token : AssertionTokenSource Key → ℕ → String → Result OauthToken
  unfolding sign_assertion token_request
  fetch_token s now id = wrapping "sign client assertion" (sign_assertion s now id) >>= λ assertion.
      lib.exchange (token_request s assertion)

  -- `Token` of the provider while the context lasts: the access token, and the token kept.
  unfoldable pub token :
      AssertionTokenSource Key → Option OauthToken → ℕ → String → Result String × Option OauthToken
  unfolding fetch_token
  token s kept now id =
      let (r, kept') = lib.reuse token_expiry_buffer kept now (fetch_token s now id) in
      (r >>= λ t. ok t.access_token, kept')

  -- The `select` of `Token`: the answer, or the error of a context that has ended; when both are ready
  -- either is taken.
  pub data Answers (s : AssertionTokenSource Key) (kept : Option OauthToken) (now : ℕ) (id : String)
      (ended : Option Error) : Result String → Type 0 where
    fetched : Answers s kept now id ended (token s kept now id).0
    cancelled : (e : Error) → ended ≡ some e → Answers s kept now id ended (err e)
