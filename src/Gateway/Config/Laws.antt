-- ===== src/Gateway/Config/Laws.antt =====
-- cmd/coggo-oauth-gateway/main.go: what a configuration that loads has, and whom the gateway then lets
-- through.
use coggo.Prelude.{
  ℕ, zero, suc, ◌<◌, String, ◌==◌, ◌≡◌, refl, Bool, true, false, ◌&&◌, not, Option, none, some,
  List, [], ◌∷◌, All, filter, eqb, arith, Bool-cases, inl, inr,
}
use Prim.Native.Char.{code}
use coggo.Prelude.Integers.{Int64, since, before, parse_int}
use coggo.Prelude.Result.{Result, ok, err}
use coggo.Gateway.Config.{
  Config, Platform, split_csv, trim_slashes, positive_or, env_int, env_float, above_zero_or,
  read_config, required, with_upstream, load_config,
}

trim_slashes_twice : (s : String) → trim_slashes (trim_slashes s) ≡ trim_slashes s
unfolding trim_slashes
trim_slashes_twice String.[] = refl
trim_slashes_twice (String.◌∷◌ c s) =
    elim (Bool-cases (eqb (code c) 47 && (trim_slashes s == ""))) [
      | inl e ↦ rw e refl
      | inr e ↦ let same = trim_slashes_twice s in rw (e, same, e) refl
    ]

filter-All : {A : Type 0} (p : A → Bool) (xs : List A) → All (λ x. p x ≡ true) (filter p xs)
unfolding filter
filter-All p [] = tt
filter-All p (x ∷ xs) = elim (Bool-cases (p x)) [
  | inl e ↦ rw e (e, filter-All p xs)
  | inr e ↦ rw e (filter-All p xs)
]

split_csv-All :
    (trim : String → String) (s : String) → All (λ p. not (p == "") ≡ true) (split_csv trim s)
unfolding split_csv
split_csv-All trim s = elim (Bool-cases (s == "")) [
  | inl e ↦ rw e tt
  | inr e ↦ rw e (filter-All (λ p. not (p == "")) _)
]

positive_or_lem : (fallback : ℕ) (n : Option Int64) → 0 < fallback → 0 < positive_or fallback n
positive_or_lem fallback (some (since (suc n))) h = omega arith
positive_or_lem fallback (some (since zero)) h = h
positive_or_lem fallback (some (before n)) h = h
positive_or_lem fallback none h = h

env_int_lem :
    (env : String → String) (key : String) (fallback : ℕ)
    → 0 < fallback
    → 0 < env_int env key fallback
unfolding env_int
env_int_lem env key fallback h = elim (Bool-cases (env key == "")) [
  | inl e ↦ rw e h
  | inr e ↦ rw e (positive_or_lem fallback (parse_int (env key)) h)
]

module _ {F L : Type 0} (o : Platform F L) where
  above_zero_or_lem :
      (fallback : F) (f : Option F)
      → o.at_most_zero fallback ≡ false
      → o.at_most_zero (above_zero_or o fallback f) ≡ false
  above_zero_or_lem fallback none h = h
  above_zero_or_lem fallback (some f) h = elim (Bool-cases (o.at_most_zero f)) [
    | inl e ↦ rw e h
    | inr e ↦ rw (e, e) refl
  ]

  env_float_lem :
      (env : String → String) (key : String) (fallback : F)
      → o.at_most_zero fallback ≡ false
      → o.at_most_zero (env_float o env key fallback) ≡ false
  unfolding env_float
  env_float_lem env key fallback h = elim (Bool-cases (env key == "")) [
    | inl e ↦ rw e h
    | inr e ↦ rw e (above_zero_or_lem fallback (o.parse_float (env key)) h)
  ]

  -- what a configuration that loads has
  pub record IsComplete (c : Config F) : Type 0 where
    pub coggo_token : (c.coggo_token == "") ≡ false
    pub google_client_id : (c.google_client_id == "") ≡ false
    pub google_client_sec : (c.google_client_sec == "") ≡ false
    pub public_url : (c.public_url == "") ≡ false
    pub no_slash : trim_slashes c.public_url ≡ c.public_url
    pub emails : All (λ e. not (e == "") ≡ true) c.allowed_emails
    pub global_rps : o.at_most_zero c.global_rps ≡ false
    pub global_burst : 0 < c.global_burst
    pub per_email_rpm : o.at_most_zero c.per_email_rpm ≡ false
    pub per_email_burst : 0 < c.per_email_burst

  pub required_ok :
      (c d : Config F)
      → required o c ≡ ok d
      → (c ≡ d)
        × ((c.coggo_token == "") ≡ false)
        × ((c.google_client_id == "") ≡ false)
        × ((c.google_client_sec == "") ≡ false)
        × ((c.public_url == "") ≡ false)
  required_ok c d h = ground arith

  -- a configuration that loads is the one that the environment reads as
  pub with_upstream_ok :
      (env : String → String) (u : Result String) (c : Config F)
      → with_upstream o env u ≡ ok c
      → (v : String) × (u ≡ ok v) × (required o (read_config o env v) ≡ ok c)
  with_upstream_ok env (err e) c h = cc
  with_upstream_ok env (ok v) c h = (v, refl, h)

  -- A configuration that loads has the token and Google's keys, a public URL that does not end in a
  -- slash, no email that is empty, and rates and bursts above zero, where the default rates are.
  pub load_config_sound :
      (env : String → String) (c : Config F)
      → o.at_most_zero (o.float_of 50) ≡ false
      → o.at_most_zero (o.float_of 10) ≡ false
      → load_config o env ≡ ok c
      → IsComplete c
  unfolding load_config
  load_config_sound env c f50 f10 h =
      let w = with_upstream_ok env _ c h in
      let r = required_ok (read_config o env w.0) c w.2 in
      rw (← r.0) (record {
        coggo_token = r.1;
        google_client_id = r.2;
        google_client_sec = r.3;
        public_url = r.4;
        no_slash = trim_slashes_twice (env "GATEWAY_PUBLIC_URL");
        emails = split_csv-All o.trim (env "OAUTH_ALLOWED_EMAILS");
        global_rps = env_float_lem env "RATE_GLOBAL_RPS" (o.float_of 50) f50;
        global_burst = env_int_lem env "RATE_GLOBAL_BURST" 100 (omega arith);
        per_email_rpm = env_float_lem env "RATE_PER_EMAIL_RPM" (o.float_of 10) f10;
        per_email_burst = env_int_lem env "RATE_PER_EMAIL_BURST" 30 (omega arith);
      })
