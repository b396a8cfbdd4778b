-- ===== src/Middleware/Auth/Passing.antt =====
-- Which requests the authentication lets through: src/utils/middleware/auth.ts.
use Prim.Native.String.{◌++◌ as ◌<>◌}
use transaction_service.Shared.{
  String, Option, none, some, [], ◌∷◌, Bool, false, ◌==◌, ◌≡◌, refl, ap, ◌∙◌, ◌⊎◌, inl, inr,
  if◌then◌else◌,
}
use transaction_service.Driver.Errors.{Result, ok}
use transaction_service.Middleware.Auth.{
  Claims, User, next_called, response, split_space, bearer_token, first_text, user_of,
  authenticated, with_token, auth_middleware,
}
use transaction_service.Middleware.Auth.Laws.{present_of}
use transaction_service.Middleware.Auth.Words.{has_space, split_two}

-- The claims name the user: by `userId`, or by `id` where `userId` is absent or empty.
abbrev pub Names : Claims → String → Type 0
Names claims id =
    ((claims.user_id ≡ some id) × ((id == "") ≡ false))
    ⊎ (((claims.user_id ≡ none) ⊎ (claims.user_id ≡ some "")) × (claims.id ≡ some id))

abbrev pub named : Claims → String → User
named claims id = record { id = some id; email = claims.email; role = claims.role }

abbrev user_with : Option String → Claims → User
user_with id claims = record { id = id; email = claims.email; role = claims.role }

user_of-named : (claims : Claims) (id : String) → Names claims id → user_of claims ≡ named claims id
unfolding user_of
user_of-named claims id (inl (given, present)) =
    ap (λ o. user_with (first_text o claims.id) claims) given ∙ rw present refl
user_of-named claims id (inr (inl absent, given)) =
    ap (λ o. user_with (first_text o claims.id) claims) absent ∙ ap (λ o. user_with o claims) given
user_of-named claims id (inr (inr empty, given)) =
    ap (λ o. user_with (first_text o claims.id) claims) empty ∙ ap (λ o. user_with o claims) given

module _ (verify : String → String → Result Claims) (next_throws : Option User → Bool) where
  -- With a secret that is configured and not empty: a header "Bearer", a space and a token without
  -- spaces that the secret verifies lets the request through, once, as the user whom the claims
  -- name, with their email and role; nothing else is answered unless the rest of the request
  -- throws, and then it is 401.
  pub auth_middleware_passes :
      (secret token id : String) (claims : Claims)
      → (secret == "") ≡ false
      → has_space token ≡ false
      → verify token secret ≡ ok claims
      → Names claims id
      → auth_middleware verify next_throws (some secret) (some ("Bearer" <> (" " <> token)))
        ≡ next_called (some (named claims id))
          ∷ (if next_throws (some (named claims id))
              then response 401 "Invalid or expired token" ∷ []
              else [])
  unfolding auth_middleware with_token authenticated
  auth_middleware_passes secret token id claims configured whole valid names =
      rw
        (
          present_of verify next_throws (some secret) ("Bearer" <> (" " <> token)) token bearer,
          bearer,
          configured,
          valid,
          user_of-named claims id names,
        )
        refl
    where
      bearer : bearer_token (split_space ("Bearer" <> (" " <> token))) ≡ some token
      bearer = ap bearer_token (split_two "Bearer" token refl whole)
