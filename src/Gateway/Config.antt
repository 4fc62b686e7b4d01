-- ===== src/Gateway/Config.antt =====
-- The configuration of cmd/coggo-oauth-gateway/main.go, from the environment, and what `run` makes of
-- it. A variable that is not set reads as the empty text. Floating-point numbers are opaque, and
-- `strings.TrimSpace`, `url.Parse` and `strconv.ParseFloat` are parameters; a URL is its text.
pub mod Laws
pub mod Admission
use Prim.Native.Char.{code}
use coggo.Prelude.{
  ℕ, zero, suc, String, ◌==◌, Bool, not, ◌&&◌, Option, none, some, List, [], ◌∷◌, map, filter, eqb,
  if◌then◌else◌,
}
use coggo.Prelude.Texts.{split_commas}
use coggo.Prelude.Integers.{Int64, since, before, parse_int}
use coggo.Prelude.Result.{Result, ok, err, message, wrap}
use coggo.Types.{Time}
use coggo.Gateway.Validator.{new_google_validator}
use coggo.Gateway.Serve.{Gateway, HttpRequest, Setup}

pub record Config (F : Type 0) : Type 0 where
  pub listen : String
  pub public_url : String
  pub upstream_url : String
  pub coggo_token : String
  pub google_client_id : String
  pub google_client_sec : String
  pub oauth_state_secret : String
  pub log_level : String
  pub allowed_client_domains : String
  pub allowed_emails : List String
  pub global_rps : F
  pub global_burst : ℕ
  pub per_email_rpm : F
  pub per_email_burst : ℕ

-- the code outside of the repository; `per_minute` divides by 60, and `at_most_zero` is `f <= 0`
pub record Platform (F L : Type 0) : Type 0 where
  pub parse_float : String → Option F
  pub float_of : ℕ → F
  pub at_most_zero : F → Bool
  pub per_minute : F → F
  pub parse_url : String → Result String
  pub trim : String → String
  pub lower : String → String
  pub hash : String → String
  pub new_limiter : F → ℕ → L
  pub allow_at : Time → L → Bool × L
  pub oauth_endpoint : HttpRequest → String

-- without the slashes at the end
unfoldable pub trim_slashes : String → String
trim_slashes String.[] = ""
trim_slashes (String.◌∷◌ c s) =
    let rest = trim_slashes s in if eqb (code c) 47 && (rest == "") then "" else String.◌∷◌ c rest

unfoldable pub split_csv : (String → String) → String → List String
unfolding split_commas
split_csv trim s = if s == "" then [] else filter (λ p. not (p == "")) (map trim (split_commas s))

abbrev pub positive_or : ℕ → Option Int64 → ℕ
positive_or fallback (some (since (suc n))) = suc n
positive_or fallback _ = fallback

module _ (env : String → String) where
  abbrev pub env_or : String → String → String
  env_or key fallback = if env key == "" then fallback else env key

  unfoldable pub env_int : String → ℕ → ℕ
  env_int key fallback =
      if env key == "" then fallback else positive_or fallback (parse_int (env key))

module _ {F L : Type 0} (o : Platform F L) where
  abbrev pub above_zero_or : F → Option F → F
  above_zero_or fallback none = fallback
  above_zero_or fallback (some f) = if o.at_most_zero f then fallback else f

  unfoldable pub env_float : (String → String) → String → F → F
  env_float env key fallback =
      if env key == "" then fallback else above_zero_or fallback (o.parse_float (env key))

  -- the values of the environment, with the URL that was parsed from it
  abbrev pub read_config : (String → String) → String → Config F
  read_config env upstream = record {
    listen = env_or env "GATEWAY_LISTEN" ":8080";
    public_url = trim_slashes (env "GATEWAY_PUBLIC_URL");
    upstream_url = upstream;
    coggo_token = env "COGGO_TOKEN";
    google_client_id = env "GOOGLE_CLIENT_ID";
    google_client_sec = env "GOOGLE_CLIENT_SECRET";
    oauth_state_secret = env_or env "OAUTH_STATE_SECRET" (env "JWT_SECRET");
    log_level = env_or env "COGGO_LOG_LEVEL" "info";
    allowed_client_domains = env_or env "OAUTH_ALLOWED_CLIENT_DOMAINS" "claude.ai,claude.com";
    allowed_emails = split_csv o.trim (env "OAUTH_ALLOWED_EMAILS");
    global_rps = env_float env "RATE_GLOBAL_RPS" (o.float_of 50);
    global_burst = env_int env "RATE_GLOBAL_BURST" 100;
    per_email_rpm = env_float env "RATE_PER_EMAIL_RPM" (o.float_of 10);
    per_email_burst = env_int env "RATE_PER_EMAIL_BURST" 30;
  }

  abbrev pub required : Config F → Result (Config F)
  required c =
      if c.coggo_token == ""
      then err (message "COGGO_TOKEN is required (run 'coggo token create --all' to mint one)")
      else if c.google_client_id == ""
      then err (message "GOOGLE_CLIENT_ID is required")
      else if c.google_client_sec == ""
      then err (message "GOOGLE_CLIENT_SECRET is required")
      else if c.public_url == ""
      then err
          (message "GATEWAY_PUBLIC_URL is required (the public URL this gateway is reachable at)")
      else ok c

  abbrev pub with_upstream : (String → String) → Result String → Result (Config F)
  with_upstream env (err e) = err (wrap "COGGO_UPSTREAM" e)
  with_upstream env (ok u) = required (read_config env u)

  unfoldable pub load_config : (String → String) → Result (Config F)
  unfolding split_csv env_float env_int trim_slashes
  load_config env =
      with_upstream env (o.parse_url (env_or env "COGGO_UPSTREAM" "http://localhost:6177"))

  -- what the handlers that `run` builds share
  abbrev pub setup_of : Config F → Setup L
  setup_of c = record {
    coggo_token = c.coggo_token;
    new_limiter = o.new_limiter (o.per_minute c.per_email_rpm) c.per_email_burst;
    allow_at = o.allow_at;
    hash = o.hash;
    lower = o.lower;
    oauth_endpoint = o.oauth_endpoint;
  }

  -- the state of the gateway when `run` begins to listen
  abbrev pub new_gateway : Config F → Gateway L
  new_gateway c = record {
    global = o.new_limiter c.global_rps c.global_burst;
    validator = new_google_validator o.lower o.trim c.google_client_id c.allowed_emails;
    buckets = [];
  }
