-- ===== src/Tests/GatewayRuns.antt =====
-- Runs of the gateway, cmd/coggo-oauth-gateway.
use coggo.Prelude.{
  none, ◌+◌, ◌-◌, ◌*◌, String, ◌≡◌, refl, Bool, true, false, List, [], ◌∷◌, filter, lookup, insert,
  delete, ℕ, zero, suc, arith,
}
use coggo.Prelude.Texts.{cut_prefix, read_digits}
use coggo.Prelude.Result.{Result, ok, err, message}
use coggo.Types.{Time}
use coggo.Gateway.Validator.{
  GoogleTokenInfo, CachedUser, GoogleValidator, Readings, admitted, new_google_validator,
  check_info, take_cached, remember, introspect, validate, max_cache_ttl,
}
use coggo.Prelude.Integers.{parse_int, read_number}
use coggo.Gateway.Validator.Expiry.{unix, second}
use coggo.Gateway.Validator.Interleavings.{Reached, opened, validate-Reached}
use coggo.Gateway.Validator.Caching.{validate-introspect}
use coggo.Gateway.RateLimit.{EmailBucket, forwarded, allow, wrap_per_email}
use coggo.Gateway.RateLimit.Laws.{Turn, called, swept, concerns, alone, verdicts, verdicts-alone}
use coggo.Gateway.Serve.{
  HttpRequest, Gateway, Moments, Setup, serve, handle_mcp, bearer_token, rewritten,
}

abbrev pub same_text : String → String
same_text s = s

abbrev emails : List String
emails = "ann@x.org" ∷ "" ∷ []

abbrev google : GoogleValidator
google = new_google_validator same_text same_text "client" emails

-- 2030 in Unix time
abbrev pub info : GoogleTokenInfo
info = record {
  aud = "client";
  sub = "7";
  email = "ann@x.org";
  email_verified = "true";
  exp = "1893456000";
  error = "";
  error_description = "";
}

-- an hour before the expiry
abbrev start : Time
start = (1893456000 + 62135596800) * second - 3600 * second

abbrev now : Readings
now = record { at_lookup = start; at_check = start; at_store = start }

abbrev ann : CachedUser
ann = record { sub = "7"; email = "ann@x.org"; expires_at = start + max_cache_ttl }

ann_admitted : (validate same_text same_text now (ok info) "tok" google).0 ≡ admitted ann
unfolding validate take_cached introspect remember check_info parse_int unix read_digits read_number
    filter lookup delete insert
ann_admitted = refl

-- a minute later, with Google out of reach
abbrev later : Readings
later = record {
  at_lookup = start + 60 * second;
  at_check = start + 60 * second;
  at_store = start + 60 * second;
}

abbrev unreachable : Result GoogleTokenInfo
unreachable = err (message "call tokeninfo")

abbrev after_ann : GoogleValidator
after_ann = (validate same_text same_text now (ok info) "tok" google).1

-- five minutes later
abbrev much_later : Readings
much_later = record {
  at_lookup = start + 300 * second;
  at_check = start + 300 * second;
  at_store = start + 300 * second;
}

after_ann_reached : Reached same_text same_text same_text "client" emails start after_ann
after_ann_reached =
    validate-Reached same_text same_text same_text "client" emails start now (ok info) "tok" google
      (omega arith) opened

validate-introspect_example :
    (validate same_text same_text much_later unreachable "tok" after_ann).0
    ≡ (introspect same_text same_text much_later unreachable "tok" after_ann).0
validate-introspect_example =
    validate-introspect same_text same_text same_text "client" emails start much_later unreachable
      "tok" after_ann after_ann_reached (omega arith)

-- a limiter of so many calls, that never fills again
abbrev pub count_down : Time → ℕ → Bool × ℕ
count_down t zero = (false, 0)
count_down t (suc n) = (true, n)

-- two emails, and a round of the sweep that finds the first one idle
abbrev turns : List Turn
turns =
    called 1 "a"
    ∷ called 2 "b"
    ∷ called 3 "a"
    ∷ called 4 "a"
    ∷ swept 600000000005
    ∷ called 600000000006 "a"
    ∷ []

verdicts-alone_example :
    verdicts 2 count_down same_text "a" turns []
    ≡ alone 2 count_down (filter (concerns same_text "a") turns) none
unfolding lookup
verdicts-alone_example = verdicts-alone 2 count_down same_text "a" turns [] tt

abbrev bucket : EmailBucket ℕ
bucket = record { lim = 1; last_seen = 5 }

abbrev setup : Setup ℕ
setup = record {
  coggo_token = "secret";
  new_limiter = 2;
  allow_at = count_down;
  hash = same_text;
  lower = same_text;
  oauth_endpoint = λ r. "metadata";
}

abbrev gateway : Gateway ℕ
gateway = record { global = 5; validator = google; buckets = [] }

abbrev pub moments : Moments
moments = record { at_entry = start; readings = now; at_limit = start }

abbrev pub request : HttpRequest
request = record { method = "POST"; path = "/mcp"; authorization = "Bearer tok"; body = "{}" }

request_forwarded :
    (serve setup moments (ok info) request gateway).0 ≡ forwarded (rewritten "secret" request)
unfolding serve handle_mcp bearer_token cut_prefix wrap_per_email allow validate take_cached
    introspect remember check_info parse_int unix read_digits read_number filter lookup delete
    insert
request_forwarded = refl
