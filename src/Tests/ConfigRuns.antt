-- ===== src/Tests/ConfigRuns.antt =====
-- Runs of the gateway from its environment, cmd/coggo-oauth-gateway/main.go.
use coggo.Prelude.{
  true, some, ℕ, String, ◌==◌, ◌≡◌, refl, [], ◌∷◌, eqb, filter, find, lookup, insert, delete,
  if◌then◌else◌, arith,
}
use coggo.Prelude.Texts.{split_commas, cut_prefix, read_digits}
use coggo.Prelude.Integers.{parse_int, read_number}
use coggo.Prelude.Result.{ok}
use coggo.Gateway.Validator.{check_info, take_cached, remember, introspect, validate}
use coggo.Gateway.Validator.Expiry.{unix}
use coggo.Gateway.Validator.Interleavings.{opened}
use coggo.Gateway.RateLimit.{forwarded, allow, wrap_per_email}
use coggo.Gateway.Serve.{serve, handle_mcp, bearer_token, rewritten}
use coggo.Gateway.Config.{
  Config, Platform, split_csv, trim_slashes, env_int, env_float, load_config, setup_of, new_gateway,
}
use coggo.Gateway.Upstream.{authorize_for_peer-serve}
use coggo.Types.{Token}
use coggo.Peer.Registry.{Registry, empty_registry, add, by_name_of, load, resolve}
use coggo.Auth.Tokens.{TokenStore, verify, token_covers_peer}
use coggo.Mcp.Authorize.{Grant, authorize_for_peer}
use coggo.Mcp.Authorize.Laws.{Rests}
use coggo.Mcp.Session.{Server, inject_auth}
use coggo.Tests.Data.{me, alice, token}
use coggo.Tests.GatewayRuns.{same_text, count_down, info, moments, request}

-- limits that are natural numbers, and a text that is itself when trimmed
abbrev platform : Platform ℕ ℕ
platform = record {
  parse_float = read_number;
  float_of = λ n. n;
  at_most_zero = λ f. eqb f 0;
  per_minute = λ f. f;
  parse_url = λ u. ok u;
  trim = same_text;
  lower = same_text;
  hash = same_text;
  new_limiter = λ f burst. burst;
  allow_at = count_down;
  oauth_endpoint = λ r. "metadata";
}

abbrev without_emails : String → String
without_emails key =
    if key == "COGGO_TOKEN"
    then "secret"
    else if key == "GOOGLE_CLIENT_ID"
    then "client"
    else if key == "GOOGLE_CLIENT_SECRET"
    then "s"
    else if key == "GATEWAY_PUBLIC_URL"
    then "https://coggo.example.com//"
    else if key == "RATE_GLOBAL_RPS"
    then "0"
    else if key == "RATE_PER_EMAIL_BURST"
    then "7"
    else ""

abbrev environment : String → String
environment key =
    if key == "OAUTH_ALLOWED_EMAILS" then "ann@x.org,,bob@x.org" else without_emails key

abbrev loaded : Config ℕ
loaded = record {
  listen = ":8080";
  public_url = "https://coggo.example.com";
  upstream_url = "http://localhost:6177";
  coggo_token = "secret";
  google_client_id = "client";
  google_client_sec = "s";
  oauth_state_secret = "";
  log_level = "info";
  allowed_client_domains = "claude.ai,claude.com";
  allowed_emails = "ann@x.org" ∷ "bob@x.org" ∷ [];
  global_rps = 50;
  global_burst = 100;
  per_email_rpm = 10;
  per_email_burst = 7;
}

env_reads : load_config platform environment ≡ ok loaded
unfolding load_config split_csv split_commas trim_slashes env_int env_float parse_int read_number
    read_digits filter
env_reads = refl

passes_through :
    (serve (setup_of platform loaded) moments (ok info) request (new_gateway platform loaded)).0
    ≡ forwarded (rewritten "secret" request)
unfolding serve handle_mcp bearer_token cut_prefix wrap_per_email allow validate take_cached
    introspect remember check_info parse_int unix read_digits read_number filter lookup delete
    insert
passes_through = refl

abbrev closed : Config ℕ
closed = record loaded { allowed_emails = [] }

none_listed : load_config platform without_emails ≡ ok closed
unfolding load_config split_csv split_commas trim_slashes env_int env_float parse_int read_number
    read_digits filter
none_listed = refl

abbrev registry : Registry
registry = (add 7 true alice empty_registry).1

abbrev coggo_token : Token
coggo_token = record token { secret_hash = "secret" }

abbrev tokens : TokenStore
tokens = record { tokens = coggo_token ∷ []; disk = coggo_token ∷ [] }

abbrev server : Server
server = record { registry = some registry; auth = some tokens; router = [] }

abbrev grant : Grant
grant = record { did = me; peer = alice; token = coggo_token }

let_in :
    authorize_for_peer same_text server.registry server.auth
      (inject_auth same_text server (rewritten "secret" request).authorization).secret
      "alice"
    ≡ ok grant
unfolding authorize_for_peer inject_auth cut_prefix resolve by_name_of add lookup insert load verify
    find token_covers_peer
let_in = refl

authorize_for_peer-serve_example :
    (reg : Registry) × (auth : TokenStore) × (some registry ≡ some reg)
    × ((some tokens ≡ some auth) × Rests same_text "secret" "alice" reg auth grant)
authorize_for_peer-serve_example =
    authorize_for_peer-serve platform environment loaded 0 moments (ok info) request
      (new_gateway platform loaded) (rewritten "secret" request) server same_text "alice" grant
      env_reads opened (omega arith) passes_through let_in
