-- ===== src/Auth/Granted.antt =====
-- Whoever the middleware lets pass with claims was vouched for by the identity provider.
use langgraph_backend.Base.{
  ℕ, ◌+◌, ◌<◌, String, ◌≡◌, refl, inl, inr, false, none, some, List, [], ◌∷◌, ◌==◌, nat_eq, arith,
  eq_iff, Option-cases, Bool-cases, if_intro,
}
use langgraph_backend.Base.Dict.{lookup, insert, lookup-insert}
use langgraph_backend.Value.{Value, State}
use langgraph_backend.Auth.{
  Provider, AuthService, Answer, granted, auth_error, crashed, new_service, get_public_key, decoded,
  userinfo_cache_ttl, ask_userinfo, validate_via_userinfo, validate_token, cached, Dispatch,
  forwarded, bearer_token, is_unprotected, dispatch, answered,
}
use langgraph_backend.Auth.Cache.{
  Published, Introspected, IsSound, IsPublished, new_service-IsSound, get_public_key-IsSound,
}

module _ (provider : Provider) where
  -- The token is signed by a published key, or a token of the same digest was answered by the
  -- userinfo endpoint less than five minutes ago, or just now.
  pub data Vouched (now : ℕ) (token : String) (claims : State) : Type 0 where
    signed :
        (kid : String) (jwk key : Value)
        → Published provider kid jwk
        → provider.from_jwk jwk ≡ some key
        → provider.decode key token ≡ some claims
        → Vouched now token claims
    introspected :
        (time : ℕ) (other : String)
        → provider.digest other ≡ provider.digest token
        → provider.userinfo time other ≡ (200, claims)
        → now < time + userinfo_cache_ttl
        → Vouched now token claims

  abbrev pub IsVouched : ℕ → String → Answer State → Type 0
  IsVouched now token (granted claims) = Vouched now token claims
  IsVouched now token _ = Unit

  remembered :
      (now : ℕ) (token : String) (claims : State) (s : AuthService)
      → provider.userinfo now token ≡ (200, claims)
      → IsSound provider s
      → (k : String) (c : State) (x : ℕ)
      → lookup k
          (insert (provider.digest token) (claims, now + userinfo_cache_ttl) s.userinfo_cache)
        ≡ some (c, x)
      → Introspected provider k c x
  remembered now token claims s ok v k c x h =
      let l =
        lookup-insert (provider.digest token) k (claims, now + userinfo_cache_ttl)
          s.userinfo_cache in
      elim (Bool-cases (provider.digest token == k)) [
        | inr n ↦ v.claims k c x (ground (arith, l))
        | inl n ↦ record {
          time = now;
          token = token;
          same_digest = (eq_iff (provider.digest token) k).0 n;
          answer = ground (arith, l);
          expiry = ground (arith, l);
        }
      ]

  ask_userinfo-IsSound :
      (now : ℕ) (token : String) (status : ℕ) (claims : State) (s : AuthService)
      → provider.userinfo now token ≡ (status, claims)
      → IsSound provider s
      → IsVouched now token (ask_userinfo provider now token (status, claims) s).0
        × IsSound provider (ask_userinfo provider now token (status, claims) s).1
  ask_userinfo-IsSound now token status claims s e v = elim (Bool-cases (nat_eq status 200)) [
    | inr b ↦ rw (b, ask_userinfo) (tt, v)
    | inl b ↦
        let ok : provider.userinfo now token ≡ (200, claims) = ground arith in
        rw (b, ask_userinfo)
          (
            introspected now token refl ok (omega arith),
            record { keys = v.keys; claims = remembered now token claims s ok v },
          )
  ]

  -- Claims of the cache are those of its entry, which has not expired.
  cached-Vouched :
      (now : ℕ) (token : String) (claims : State) (s : AuthService)
      → IsSound provider s
      → cached provider now (lookup (provider.digest token) s.userinfo_cache) ≡ some claims
      → Vouched now token claims
  cached-Vouched now token claims s v h =
      elim (Option-cases (lookup (provider.digest token) s.userinfo_cache)) [
        | inl e ↦ absurd (ground arith)
        | inr ((c, x), e) ↦
            let i = v.claims (provider.digest token) c x e in
            introspected i.time i.token i.same_digest (ground (arith, i.answer))
              (ground (arith, i.expiry))
      ]

  validate_via_userinfo-IsSound :
      (now : ℕ) (token : String) (s : AuthService)
      → IsSound provider s
      → IsVouched now token (validate_via_userinfo provider now token s).0
        × IsSound provider (validate_via_userinfo provider now token s).1
  unfolding validate_via_userinfo
  validate_via_userinfo-IsSound now token s v =
      if_intro (λ (r : Answer State × AuthService). IsVouched now token r.0 × IsSound provider r.1)
        provider.has_userinfo _ _
        (elim (Option-cases
          (cached provider now (lookup (provider.digest token) s.userinfo_cache))) [
            | inr (claims, e) ↦ rw e (cached-Vouched now token claims s v e, v)
            | inl e ↦ rw e (
                ask_userinfo-IsSound now token (provider.userinfo now token).0
                  (provider.userinfo now token).1 s refl v)
          ])
        (tt, v)

  decoded-IsVouched :
      (now : ℕ) (token kid : String) (answer : Answer Value)
      → IsPublished provider kid answer
      → IsVouched now token (decoded provider token answer)
  decoded-IsVouched now token kid auth_error p = tt
  decoded-IsVouched now token kid crashed p = tt
  decoded-IsVouched now token kid (granted key) (jwk, f, p) =
      elim (Option-cases (provider.decode key token)) [
        | inl e ↦ rw (e, decoded) tt
        | inr (claims, e) ↦ rw (e, decoded) (signed kid jwk key p f e)
      ]

  pub validate_token-IsSound :
      (now : ℕ) (token : String) (s : AuthService)
      → IsSound provider s
      → IsVouched now token (validate_token provider now token s).0
        × IsSound provider (validate_token provider now token s).1
  unfolding validate_token
  validate_token-IsSound now token s v = elim (Option-cases (provider.unverified_kid token)) [
    | inl e ↦ rw (e, validate_token) (validate_via_userinfo-IsSound now token s v)
    | inr (o, e) ↦ elim (Option-cases o) [
      | inl f ↦ rw (e, validate_token) (rw (f, validate_token) (tt, v))
      | inr (kid, f) ↦ elim (Bool-cases (kid == "")) [
        | inl b ↦ rw (e, validate_token) (rw (f, validate_token) (rw (b, validate_token) (tt, v)))
        | inr b ↦
            let g = get_public_key-IsSound provider now kid s v in
            rw (e, validate_token)
              (rw (f, validate_token)
                (rw (b, validate_token)
                  (decoded-IsVouched now token kid (get_public_key provider now kid s).0 g.0, g.1)))
      ]
    ]
  ]

  -- The service behind requests, each at its time with its path and Authorization header.
  unfoldable pub served : List (ℕ × String × String) → AuthService → AuthService
  served [] s = s
  served ((now, path, header) ∷ requests) s =
      served requests (dispatch provider now path header s).1

  dispatch-IsSound :
      (now : ℕ) (path header : String) (s : AuthService)
      → IsSound provider s
      → IsSound provider (dispatch provider now path header s).1
  unfolding dispatch
  dispatch-IsSound now path header s v = elim (Bool-cases (is_unprotected path)) [
    | inl b ↦ rw (b, dispatch) v
    | inr b ↦ elim (Option-cases (bearer_token header)) [
      | inl e ↦ rw (b, dispatch) (rw (e, dispatch) v)
      | inr (token, e) ↦
          rw (b, dispatch) (rw (e, dispatch) (validate_token-IsSound now token s v).1)
    ]
  ]

  served-IsSound :
      (requests : List (ℕ × String × String)) (s : AuthService)
      → IsSound provider s
      → IsSound provider (served requests s)
  unfolding served
  served-IsSound [] s v = v
  served-IsSound ((now, path, header) ∷ requests) s v =
      served-IsSound requests (dispatch provider now path header s).1
        (dispatch-IsSound now path header s v)

  -- Who is forwarded on a path that is not exempt: the claims, and the token that is vouched for.
  abbrev pub IsPassed : ℕ → String → Dispatch → Type 0
  IsPassed now header (forwarded none) = ⊥
  IsPassed now header (forwarded (some claims)) =
      (token : String) × (bearer_token header ≡ some token) × Vouched now token claims
  IsPassed now header _ = Unit

  answered-IsPassed :
      (now : ℕ) (header token : String) (answer : Answer State)
      → bearer_token header ≡ some token
      → IsVouched now token answer
      → IsPassed now header (answered answer)
  answered-IsPassed now header token auth_error e v = tt
  answered-IsPassed now header token crashed e v = tt
  answered-IsPassed now header token (granted claims) e v = (token, e, v)

  -- Behind any requests to a new service: a request on a path that is not exempt from
  -- authentication is forwarded only with a bearer token and its claims, and then either the token
  -- decodes to these claims by a key that the provider's key endpoint published, or its userinfo
  -- endpoint answered these claims for a token of the same digest less than five minutes before.
  pub dispatch-IsPassed :
      (requests : List (ℕ × String × String)) (now : ℕ) (path header : String)
      → is_unprotected path ≡ false
      → IsPassed now header (dispatch provider now path header (served requests new_service)).0
  unfolding dispatch
  dispatch-IsPassed requests now path header b = elim (Option-cases (bearer_token header)) [
    | inl e ↦ rw (b, dispatch) (rw (e, dispatch) tt)
    | inr (token, e) ↦
        let s = served requests new_service in
        rw (b, dispatch)
          (rw (e, dispatch)
            (answered-IsPassed now header token (validate_token provider now token s).0 e
              (validate_token-IsSound now token s
                (served-IsSound requests new_service (new_service-IsSound provider))).0))
  ]
