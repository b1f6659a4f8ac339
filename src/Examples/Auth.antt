-- ===== src/Examples/Auth.antt =====
-- A token that is no JWT, used twice within the time that its claims are kept.
use langgraph_backend.Base.{ℕ, String, ◌≡◌, refl, true, none, some, List, [], ◌∷◌}
use langgraph_backend.Base.Dict.{lookup, insert}
use langgraph_backend.Value.{State, text}
use langgraph_backend.Auth.{Provider, forwarded, new_service, dispatch}
use langgraph_backend.Auth.Granted.{served, IsPassed, dispatch-IsPassed}

abbrev claims : State
claims = ("sub", text "ann") ∷ []

abbrev provider : Provider
provider = record {
  unverified_kid = λ token. none;
  jwks = λ now. none;
  from_jwk = λ jwk. none;
  decode = λ key token. none;
  has_userinfo = true;
  userinfo = λ now token. (200, claims);
  digest = λ token. token;
}

abbrev earlier : List (ℕ × String × String)
earlier = (100, "/api/v1/workflows/runs", "Bearer opaque") ∷ []

passes :
    (dispatch provider 200 "/api/v1/agents" "Bearer opaque" (served provider earlier new_service)).0
    ≡ forwarded (some claims)
unfolding dispatch served lookup insert
passes = refl

dispatch-IsPassed_example :
    IsPassed provider 200 "Bearer opaque"
      (dispatch provider 200 "/api/v1/agents" "Bearer opaque"
        (served provider earlier new_service)).0
dispatch-IsPassed_example =
    dispatch-IsPassed provider earlier 200 "/api/v1/agents" "Bearer opaque" refl
