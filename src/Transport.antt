-- ===== src/Transport.antt =====
-- The HTTP clients of net/http that internal/infrastructure/query/client.go and cdp/client.go make or are
-- given, and the tracing transport of otelhttp that both put into them.
use lfx_v2_persona_service.Prelude.{
  ℕ, ◌*◌, ◌^◌, Bool, true, false, Option, none, some, if◌then◌else◌, ◌≡◌, refl,
}

-- `http.DefaultTransport`, any other transport, and one that otelhttp made around another.
pub data RoundTripper : Type 0 where
  default_transport : RoundTripper
  custom : ℕ → RoundTripper
  traced : RoundTripper → RoundTripper

-- The timeout is in nanoseconds.
pub record HttpClient : Type 0 where
  pub timeout : ℕ
  pub transport : Option RoundTripper

abbrev underlying : Option RoundTripper → RoundTripper
underlying none = default_transport
underlying (some t) = t

abbrev is_traced : RoundTripper → Bool
is_traced (traced t) = true
is_traced _ = false

-- The client that both `NewClient` use: one of ten seconds, or a copy of the one that is given, traced
-- unless it is already.
unfoldable pub instrumented : Option HttpClient → HttpClient
instrumented none = record { timeout = 10 * 10 ^ 9; transport = some (traced default_transport) }
instrumented (some c) =
    if is_traced (underlying c.transport)
    then c
    else record c { transport = some (traced (underlying c.transport)) }

traced_twice :
    (timeout : ℕ) (t : Option RoundTripper)
    → let once = instrumented (some (record { timeout = timeout; transport = t })) in
      instrumented (some once) ≡ once
unfolding instrumented
traced_twice timeout none = refl
traced_twice timeout (some default_transport) = refl
traced_twice timeout (some (custom n)) = refl
traced_twice timeout (some (traced t)) = refl

-- A client that was made this way is taken as it is: its requests are traced once.
pub instrumented_twice :
    (c : Option HttpClient) → instrumented (some (instrumented c)) ≡ instrumented c
unfolding instrumented
instrumented_twice none = refl
instrumented_twice (some c) = traced_twice c.timeout c.transport
