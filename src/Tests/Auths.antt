-- ===== src/Tests/Auths.antt =====
-- Requests through the authentication.
use transaction_service.Shared.{
  String, Option, none, some, [], ◌∷◌, Bool, true, false, ◌≡◌, refl, inr, ◌⊎◌, ◌==◌, if◌then◌else◌,
}
use transaction_service.Driver.Errors.{Result, ok, err, exception, plain_error}
use transaction_service.Middleware.Auth.{
  Claims, User, next_called, response, split_space, user_of, authenticated, with_token,
  auth_middleware, optionally, proceed, optional_user, optional_auth_middleware,
}
use transaction_service.Middleware.Auth.Laws.{Verified, calls-optional}
use transaction_service.Middleware.Auth.Passing.{named, auth_middleware_passes}

abbrev claims : Claims
claims = record {
  user_id = some "";
  id = some "user-001";
  email = some "user@example.com";
  role = none;
}

abbrev user : User
user = record { id = some "user-001"; email = some "user@example.com"; role = none }

-- One token, under one secret.
abbrev verify : String → String → Result Claims
verify token secret =
    if token == "abc"
    then (if secret == "s3" then ok claims else err (exception plain_error "invalid signature"))
    else err (exception plain_error "jwt malformed")

abbrev throws : Option User → Bool
throws _ = true

abbrev never : Option User → Bool
never _ = false

three_parts : split_space "Bearer abc " ≡ "Bearer" ∷ "abc" ∷ "" ∷ []
unfolding split_space
three_parts = refl

refused_header :
    auth_middleware verify never (some "s3") (some "Bearer abc ")
    ≡ response 401 "Invalid authorization header format" ∷ []
unfolding auth_middleware with_token split_space
refused_header = refl

wrong_secret :
    auth_middleware verify never none (some "Bearer abc")
    ≡ response 401 "Invalid or expired token" ∷ []
unfolding auth_middleware with_token authenticated split_space
wrong_secret = refl

-- What the rest of the request throws is answered as a bad token.
blamed_on_token :
    auth_middleware verify throws (some "s3") (some "Bearer abc")
    ≡ next_called (some user) ∷ response 401 "Invalid or expired token" ∷ []
unfolding auth_middleware with_token authenticated split_space user_of
blamed_on_token = refl

called_twice :
    optional_auth_middleware verify throws (some "s3") (some "Bearer abc")
    ≡ next_called (some user) ∷ next_called (some user) ∷ []
unfolding optional_auth_middleware optionally optional_user proceed split_space user_of
called_twice = refl

bearer-Verified : Verified verify (some "s3") (some "Bearer abc") user
unfolding split_space user_of
bearer-Verified = record {
  text = "Bearer abc";
  token = "abc";
  claims = claims;
  given = refl;
  bearer = refl;
  valid = refl;
  same = refl;
}

auth_middleware_passes_example :
    auth_middleware verify throws (some "s3") (some "Bearer abc")
    ≡ next_called (some (named claims "user-001")) ∷ response 401 "Invalid or expired token" ∷ []
auth_middleware_passes_example =
    auth_middleware_passes verify throws "s3" "abc" "user-001" claims refl refl refl
      (inr (inr refl, refl))

calls-optional_example :
    (u : Option User) × (optional_auth_middleware verify throws (some "s3") (some "Bearer abc")
      ≡ next_called u ∷ next_called u ∷ [])
    × ((u ≡ none) ⊎ ((v : User) × (u ≡ some v) × Verified verify (some "s3") (some "Bearer abc") v))
calls-optional_example = calls-optional verify throws (some "s3") (some "Bearer abc")
