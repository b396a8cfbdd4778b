-- ===== src/Middleware/Auth.antt =====
-- `authMiddleware`, `optionalAuthMiddleware` and `createGraphQLContext` of
-- src/utils/middleware/auth.ts. `verify` stands for `jwt.verify`, and `next_throws` for the rest of
-- the request: whether calling `next` with the request's user throws. Log lines are left out.
pub mod Laws
pub mod Words
pub mod Passing
use Prim.Native.Char.{code}
use transaction_service.Shared.{
  ℕ, String, Option, none, some, List, [], ◌∷◌, ◌++◌, Bool, true, false, ◌==◌, nat_eq, or_else,
  if◌then◌else◌,
}
use transaction_service.Driver.Errors.{Exception, Result, ok, err}

-- What the token holds, as far as the middleware reads it.
pub record Claims : Type 0 where
  pub user_id : Option String
  pub id : Option String
  pub email : Option String
  pub role : Option String

-- `req.user`
pub record User : Type 0 where
  pub id : Option String
  pub email : Option String
  pub role : Option String

-- What a middleware does to a request, step by step.
pub data Event : Type 0 where
  next_called : Option User → Event
  response : ℕ → String → Event

-- A part, and the parts behind it.
abbrev parts_cons : String → List String → List String
parts_cons s [] = s ∷ []
parts_cons s (p ∷ ps) = p ∷ ps

abbrev pub grow : (String → String) → List String → List String
grow f [] = []
grow f (p ∷ ps) = f p ∷ ps

-- `header.split(' ')`
unfoldable pub split_space : String → List String
split_space String.[] = "" ∷ []
split_space (String.◌∷◌ c s) =
    if nat_eq (code c) b' ' then "" ∷ split_space s else grow (String.◌∷◌ c) (split_space s)

-- `parts.length !== 2 || parts[0] !== 'Bearer'` fails, and `parts[1]`.
abbrev pub bearer_token : List String → Option String
bearer_token (scheme ∷ token ∷ []) = if scheme == "Bearer" then some token else none
bearer_token _ = none

-- `process.env.JWT_SECRET || 'your-secret-key'`
abbrev pub jwt_secret : Option String → String
jwt_secret none = "your-secret-key"
jwt_secret (some s) = if s == "" then "your-secret-key" else s

-- `decoded.userId || decoded.id`
abbrev pub first_text : Option String → Option String → Option String
first_text none b = b
first_text (some s) b = if s == "" then b else some s

unfoldable pub user_of : Claims → User
user_of c = record { id = first_text c.user_id c.id; email = c.email; role = c.role }

module _ (verify : String → String → Result Claims) (next_throws : Option User → Bool)
    (secret : Option String) where
  -- The inner `try`: `next` is called inside it, so that what it throws is answered here too.
  unfoldable pub authenticated : Result Claims → List Event
  authenticated (ok claims) =
      let user = some (user_of claims) in
      next_called user
      ∷ (if next_throws user then response 401 "Invalid or expired token" ∷ [] else [])
  authenticated (err e) = response 401 "Invalid or expired token" ∷ []

  unfoldable pub with_token : Option String → List Event
  with_token none = response 401 "Invalid authorization header format" ∷ []
  with_token (some token) = authenticated (verify token (jwt_secret secret))

  -- An absent and an empty header are both falsy.
  unfoldable pub auth_middleware : Option String → List Event
  auth_middleware none = response 401 "No authorization header provided" ∷ []
  auth_middleware (some header) =
      if header == ""
      then response 401 "No authorization header provided" ∷ []
      else with_token (bearer_token (split_space header))

  -- `next()` inside the outer `try`, whose handler calls it again.
  unfoldable pub proceed : Option User → List Event
  proceed user = next_called user ∷ (if next_throws user then next_called user ∷ [] else [])

  -- The user that the inner `try` leaves on the request.
  unfoldable pub optional_user : Result Claims → Option User
  optional_user (ok claims) = some (user_of claims)
  optional_user (err e) = none

  unfoldable pub optionally : Option String → List Event
  optionally none = proceed none
  optionally (some token) = proceed (optional_user (verify token (jwt_secret secret)))

  unfoldable pub optional_auth_middleware : Option String → List Event
  optional_auth_middleware none = proceed none
  optional_auth_middleware (some header) =
      if header == "" then proceed none else optionally (bearer_token (split_space header))

-- `createGraphQLContext`
pub record Context : Type 0 where
  pub user : Option User
  pub ip : String
  pub user_agent : Option String

unfoldable pub create_graphql_context : Option User → String → Option String → Context
create_graphql_context user ip user_agent = record { user = user; ip = ip; user_agent = user_agent }
