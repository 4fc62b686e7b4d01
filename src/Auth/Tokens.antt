-- ===== src/Auth/Tokens.antt =====
-- internal/auth/tokens.go. The memory and the file are kept apart, since a flush can fail: `flushed`
-- says whether the one in the call succeeds. `hash` is the SHA-256 of `hashSecret`.
pub mod Laws
use coggo.Prelude.{
  String, ◌==◌, Bool, true, false, ◌||◌, not, Option, none, some, List, [], ◌∷◌, ◌++◌, any, find,
  is_empty, map, if◌then◌else◌,
}
use coggo.Prelude.Result.{Result, ok, err, message, about, wrap}
use coggo.Types.{Time, zero_time, Token}

pub record TokenStore : Type 0 where
  pub tokens : List Token
  pub disk : List Token

-- `Open`: the memory starts from the file.
unfoldable pub reopen : TokenStore → TokenStore
reopen s = record s { tokens = s.disk }

-- `flushLocked`: the file is replaced as a whole, or stays as it was.
abbrev pub flush_locked : Bool → TokenStore → TokenStore
flush_locked flushed s = if flushed then record s { disk = s.tokens } else s

-- `"*"` stands for every peer.
unfoldable pub token_covers_peer : Token → String → Bool
token_covers_peer t name = any (λ p. (p == "*") || (p == name)) t.peers

-- Drops the first token with the id.
unfoldable pub remove_token : String → List Token → List Token
remove_token id [] = []
remove_token id (t ∷ ts) = let rest = remove_token id ts in if t.id == id then ts else t ∷ rest

-- Stamps the first token with the id.
unfoldable pub touch_first : Time → String → List Token → List Token
touch_first now id [] = []
touch_first now id (t ∷ ts) =
    let rest = touch_first now id ts in
    if t.id == id then record t { last_used_at = now } ∷ ts else t ∷ rest

abbrev pub has_token : String → List Token → Bool
has_token id = any (λ t. t.id == id)

unfoldable pub revoke : Bool → String → TokenStore → Result (Unit {0}) × TokenStore
unfolding remove_token
revoke flushed id s =
    if has_token id s.tokens
    then (
      if flushed then ok tt else err (message "flush"),
      flush_locked flushed (record s { tokens = remove_token id s.tokens }),
    )
    else (err (about "auth: no token with id" id), s)

-- `touch`, which a successful `Verify` starts on its own thread: an error of the flush is dropped.
unfoldable pub touch : Time → Bool → String → TokenStore → TokenStore
unfolding touch_first
touch now flushed id s =
    if has_token id s.tokens
    then flush_locked flushed (record s { tokens = touch_first now id s.tokens })
    else s

unfoldable pub list_tokens : TokenStore → List Token
list_tokens s = s.tokens

module _ (hash : String → String) where
  abbrev pub new_token : Time → String → String → List String → String → Token
  new_token now id secret peers label = record {
    id = id;
    secret_hash = hash secret;
    peers = peers;
    label = label;
    created_at = now;
    last_used_at = zero_time;
  }

  abbrev pub with_token : Token → TokenStore → TokenStore
  with_token t s = record s { tokens = s.tokens ++ t ∷ [] }

  -- `id` and `secret` are what the generators give; `none` where the random source fails.
  unfoldable pub issue :
      Time
      → String
      → Option String
      → Bool
      → List String
      → String
      → TokenStore
      → Result (String × String) × TokenStore
  issue now id none flushed peers label s =
      if is_empty peers
      then (err (message "auth: at least one peer required"), s)
      else (err (wrap "auth" (message "random source")), s)
  issue now id (some secret) flushed peers label s =
      if is_empty peers then (err (message "auth: at least one peer required"), s) else (
        if flushed then ok (id, secret) else err (wrap "auth" (message "flush")),
        flush_locked flushed (with_token (new_token now id secret peers label) s),
      )

  abbrev pub covering : Option Token → String → Result Token
  covering none peer = err (message "auth: unauthorized: unknown token")
  covering (some t) peer =
      if token_covers_peer t peer
      then ok t
      else err (about "auth: unauthorized: token not valid for peer" peer)

  -- The first token with the hash of the secret decides.
  unfoldable pub verify : String → String → TokenStore → Result Token
  unfolding find token_covers_peer
  verify secret peer s = covering (find (λ t. t.secret_hash == hash secret) s.tokens) peer
