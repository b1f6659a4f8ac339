-- ===== src/Auth/Cache.antt =====
-- What the caches of the service hold: keys that the endpoint published, and claims that it answered.
use langgraph_backend.Base.{
  ℕ, ◌+◌, String, ◌≡◌, ◌⊎◌, inl, inr, some, [], ◌∷◌, ◌==◌, arith, eq_iff, Option-cases, Bool-cases,
  OnSome, OnSome-elim,
}
use langgraph_backend.Base.Dict.{Dict, lookup, insert, lookup-insert}
use langgraph_backend.Value.{Value, State}
use langgraph_backend.Auth.{
  Provider, AuthService, Answer, granted, public_key, new_service, insert_keys, fetch_jwks,
  known_key, get_public_key, userinfo_cache_ttl, is_outdated,
}

-- The pair is among the keys.
abbrev pub Has : String → Value → Dict Value → Type 0
Has kid key [] = ⊥
Has kid key ((j, k) ∷ keys) = ((j ≡ kid) × (k ≡ key)) ⊎ Has kid key keys

lookup-insert_keys :
    (kid : String) (key : Value) (keys cache : Dict Value)
    → lookup kid (insert_keys keys cache) ≡ some key
    → Has kid key keys ⊎ (lookup kid cache ≡ some key)
unfolding insert_keys
lookup-insert_keys kid key [] cache h = inr h
lookup-insert_keys kid key ((j, k) ∷ keys) cache h =
    elim (lookup-insert_keys kid key keys (insert j k cache) h) [
      | inl m ↦ inl (inr m)
      | inr f ↦ elim (Bool-cases (j == kid)) [
        | inl e ↦ inl (inl ((eq_iff j kid).0 e, ground (arith, lookup-insert j kid k cache)))
        | inr e ↦ inr (ground (arith, lookup-insert j kid k cache))
      ]
    ]

module _ (provider : Provider) where
  -- At some time the endpoint published the key under its id.
  pub record Published (kid : String) (key : Value) : Type 0 where
    pub time : ℕ
    pub keys : Dict Value
    pub answer : provider.jwks time ≡ some keys
    pub listed : Has kid key keys

  -- At some time the endpoint answered the claims for a token.
  pub record Introspected (k : String) (claims : State) (expires_at : ℕ) : Type 0 where
    pub time : ℕ
    pub token : String
    pub same_digest : provider.digest token ≡ k
    pub answer : provider.userinfo time token ≡ (200, claims)
    pub expiry : expires_at ≡ time + userinfo_cache_ttl

  pub record IsSound (s : AuthService) : Type 0 where
    pub keys : (kid : String) (key : Value) → lookup kid s.kid_cache ≡ some key → Published kid key
    pub claims :
        (k : String) (c : State) (e : ℕ)
        → lookup k s.userinfo_cache ≡ some (c, e)
        → Introspected k c e

  pub new_service-IsSound : IsSound new_service
  unfolding lookup
  new_service-IsSound = record {
    keys = λ kid key h. absurd (ground arith);
    claims = λ k c e h. absurd (ground arith);
  }

  fetch_jwks-IsSound :
      (now : ℕ) (s : AuthService) → IsSound s → OnSome IsSound (fetch_jwks provider now s)
  unfolding fetch_jwks
  fetch_jwks-IsSound now s v = elim (Option-cases (provider.jwks now)) [
    | inl e ↦ rw (e, fetch_jwks) tt
    | inr (ks, e) ↦
        rw (e, fetch_jwks)
          (record {
            keys = λ kid key h. elim (lookup-insert_keys kid key ks s.kid_cache h) [
              | inl m ↦ record { time = now; keys = ks; answer = e; listed = m }
              | inr f ↦ v.keys kid key f
            ];
            claims = v.claims;
          })
  ]

  -- A key that is granted for an id was published under it.
  abbrev pub IsPublished : String → Answer Value → Type 0
  IsPublished kid (granted key) =
      (jwk : Value) × (provider.from_jwk jwk ≡ some key) × Published kid jwk
  IsPublished kid _ = Unit

  public_key-IsPublished :
      (kid : String) (jwk : Value) → Published kid jwk → IsPublished kid (public_key provider jwk)
  public_key-IsPublished kid jwk p = elim (Option-cases (provider.from_jwk jwk)) [
    | inl e ↦ rw (e, public_key) tt
    | inr (key, e) ↦ rw (e, public_key) (jwk, e, p)
  ]

  known_key-IsSound :
      (now : ℕ) (kid : String) (s : AuthService)
      → IsSound s
      → IsPublished kid (known_key provider now kid s).0 × IsSound (known_key provider now kid s).1
  unfolding known_key
  known_key-IsSound now kid s v = elim (Option-cases (lookup kid s.kid_cache)) [
    | inr (jwk, e) ↦ rw (e, known_key) (public_key-IsPublished kid jwk (v.keys kid jwk e), v)
    | inl e ↦ elim (Option-cases (fetch_jwks provider now s)) [
      | inl f ↦ rw (e, known_key) (rw (f, known_key) (tt, v))
      | inr (s', f) ↦
          let v' =
            OnSome-elim IsSound (fetch_jwks provider now s) s' (fetch_jwks-IsSound now s v) f in
          elim (Option-cases (lookup kid s'.kid_cache)) [
            | inl g ↦ rw (e, known_key) (rw (f, known_key) (rw (g, known_key) (tt, v')))
            | inr (jwk, g) ↦
                rw (e, known_key)
                  (rw (f, known_key)
                    (rw (g, known_key) (public_key-IsPublished kid jwk (v'.keys kid jwk g), v')))
          ]
    ]
  ]

  pub get_public_key-IsSound :
      (now : ℕ) (kid : String) (s : AuthService)
      → IsSound s
      → IsPublished kid (get_public_key provider now kid s).0
        × IsSound (get_public_key provider now kid s).1
  unfolding get_public_key
  get_public_key-IsSound now kid s v = elim (Bool-cases (is_outdated now s.last_updated)) [
    | inr b ↦ rw (b, get_public_key) (known_key-IsSound now kid s v)
    | inl b ↦ elim (Option-cases (fetch_jwks provider now s)) [
      | inl f ↦ rw (b, get_public_key) (rw (f, get_public_key) (tt, v))
      | inr (s', f) ↦
          rw (b, get_public_key)
            (rw (f, get_public_key)
              (known_key-IsSound now kid s' (
                OnSome-elim IsSound (fetch_jwks provider now s) s' (fetch_jwks-IsSound now s v) f)))
    ]
  ]
