-- ===== src/Auth.antt =====
-- app/infrastructure/auth/auth_service.py and app/api/middleware/auth.py: who may call the API. The
-- identity provider and PyJWT are given; times are seconds.
pub mod Cache
pub mod Granted
use langgraph_backend.Base.{
  ℕ, ◌+◌, String, Bool, true, false, Option, none, some, List, [], ◌∷◌, ◌==◌, ◌||◌, if◌then◌else◌,
  any, ltb, nat_eq, starts_with,
}
use langgraph_backend.Base.Dict.{Dict, lookup, insert}
use langgraph_backend.Value.{Value, State}
use langgraph_backend.Texts.{from}

-- What the service finds outside. `unverified_kid` is the key id in a token's header, `none` where
-- the token is no JWT, `some none` where the header has none; `jwks` the keys of the endpoint at a
-- time, `none` where its status is not 200; `from_jwk` and `decode` are `none` where they raise; and
-- `userinfo` is the status and the claims that the endpoint answers for a token at a time.
pub record Provider : Type 0 where
  pub unverified_kid : String → Option (Option String)
  pub jwks : ℕ → Option (Dict Value)
  pub from_jwk : Value → Option Value
  pub decode : Value → String → Option State
  pub has_userinfo : Bool
  pub userinfo : ℕ → String → ℕ × State
  -- hashlib.sha256(token.encode()).hexdigest()[:24]
  pub digest : String → String

pub record AuthService : Type 0 where
  pub kid_cache : Dict Value
  pub last_updated : Option ℕ
  pub userinfo_cache : Dict (State × ℕ)

abbrev pub new_service : AuthService
new_service = record { kid_cache = []; last_updated = none; userinfo_cache = [] }

-- `crashed` is any exception but `AuthError`.
pub data Answer {ℓ} (A : Type ℓ) : Type ℓ where
  granted : A → Answer A
  auth_error crashed : Answer A

abbrev pub userinfo_cache_ttl : ℕ
userinfo_cache_ttl = 300

abbrev pub one_day : ℕ
one_day = 86400

-- for key in keys: kid_cache[key["kid"]] = key
unfoldable pub insert_keys : Dict Value → Dict Value → Dict Value
insert_keys [] cache = cache
insert_keys ((kid, key) ∷ keys) cache = insert_keys keys (insert kid key cache)

abbrev pub is_outdated : ℕ → Option ℕ → Bool
is_outdated now none = true
is_outdated now (some t) = ltb (t + one_day) now

module _ (provider : Provider) where
  -- `none` is an AuthError.
  unfoldable pub fetch_jwks : ℕ → AuthService → Option AuthService
  unfolding insert_keys
  fetch_jwks now s = elim (provider.jwks now) [
    | none ↦ none
    | some keys ↦
        some (record s { kid_cache = insert_keys keys s.kid_cache; last_updated = some now })
  ]

  abbrev pub public_key : Value → Answer Value
  public_key jwk = elim (provider.from_jwk jwk) [ none ↦ crashed | some key ↦ granted key ]

  -- A key that is not known is fetched once more.
  unfoldable pub known_key : ℕ → String → AuthService → Answer Value × AuthService
  unfolding fetch_jwks
  known_key now kid s = elim (lookup kid s.kid_cache) [
    | some jwk ↦ (public_key jwk, s)
    | none ↦ elim (fetch_jwks now s) [
      | none ↦ (auth_error, s)
      | some s' ↦ elim (lookup kid s'.kid_cache) [
        | none ↦ (auth_error, s')
        | some jwk ↦ (public_key jwk, s')
      ]
    ]
  ]

  unfoldable pub get_public_key : ℕ → String → AuthService → Answer Value × AuthService
  unfolding known_key
  get_public_key now kid s =
      if is_outdated now s.last_updated
      then (elim (fetch_jwks now s) [ none ↦ (auth_error, s) | some s' ↦ known_key now kid s' ])
      else known_key now kid s

  abbrev pub ask_userinfo : ℕ → String → ℕ × State → AuthService → Answer State × AuthService
  ask_userinfo now token (status, claims) s =
      if nat_eq status 200
      then (
        granted claims,
        record s {
          userinfo_cache =
              insert (provider.digest token) (claims, now + userinfo_cache_ttl) s.userinfo_cache;
        },
      )
      else (auth_error, s)

  abbrev pub cached : ℕ → Option (State × ℕ) → Option State
  cached now none = none
  cached now (some (claims, expires_at)) = if ltb now expires_at then some claims else none

  unfoldable pub validate_via_userinfo : ℕ → String → AuthService → Answer State × AuthService
  validate_via_userinfo now token s =
      if provider.has_userinfo
      then (elim (cached now (lookup (provider.digest token) s.userinfo_cache)) [
        | some claims ↦ (granted claims, s)
        | none ↦ ask_userinfo now token (provider.userinfo now token) s
      ])
      else (auth_error, s)

  abbrev pub decoded : String → Answer Value → Answer State
  decoded token auth_error = auth_error
  decoded token crashed = crashed
  decoded token (granted key) = elim (provider.decode key token) [
    | none ↦ auth_error
    | some claims ↦ granted claims
  ]

  unfoldable pub validate_token : ℕ → String → AuthService → Answer State × AuthService
  unfolding validate_via_userinfo get_public_key
  validate_token now token s = elim (provider.unverified_kid token) [
    | none ↦ validate_via_userinfo now token s
    | some none ↦ (auth_error, s)
    | some (some kid) ↦
        if kid == ""
        then (auth_error, s)
        else (let (key, s') = get_public_key now kid s in (decoded token key, s'))
  ]

-- What the middleware does with a request: it is forwarded, with the claims of its token where it
-- needs one, answered 401, or the call raises.
pub data Dispatch : Type 0 where
  forwarded : Option State → Dispatch
  unauthorized failed : Dispatch

abbrev pub is_unprotected : String → Bool
is_unprotected path =
    path == "/health"
    || path == "/ready"
    || any (starts_with path)
        ("/copilotkit" ∷ "/api/v1/callbacks/" ∷ "/api/v1/webhooks/" ∷ "/api/v1/runs/" ∷ [])

abbrev pub bearer_token : String → Option String
unfolding from
bearer_token header =
    if starts_with header "Bearer "
    then (if from 7 header == "" then none else some (from 7 header))
    else none

abbrev pub answered : Answer State → Dispatch
answered (granted claims) = forwarded (some claims)
answered auth_error = unauthorized
answered crashed = failed

module _ (provider : Provider) where
  unfoldable pub dispatch : ℕ → String → String → AuthService → Dispatch × AuthService
  unfolding validate_token from
  dispatch now path header s =
      if is_unprotected path then (forwarded none, s) else elim (bearer_token header) [
        | none ↦ (unauthorized, s)
        | some token ↦
            let (answer, s') = validate_token provider now token s in (answered answer, s')
      ]
