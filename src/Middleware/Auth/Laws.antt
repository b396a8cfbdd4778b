-- ===== src/Middleware/Auth/Laws.antt =====
-- Who gets past the authentication: src/utils/middleware/auth.ts.
use mathlib.Core.Path.{subst}
use transaction_service.Shared.{
  ℕ, suc, String, Option, none, some, List, [], ◌∷◌, Bool, false, ◌==◌, ◌≡◌, refl, ◌⊎◌, inl, inr,
  Bool-cases, eq_iff, arith, if◌then◌else◌,
}
use transaction_service.Driver.Errors.{Result, ok, err}
use transaction_service.Middleware.Auth.{
  Claims, User, Event, next_called, response, split_space, bearer_token, jwt_secret, user_of,
  proceed, optional_user, optionally, optional_auth_middleware,
}

abbrev pub Called : Option User → List Event → Type 0
Called u [] = ⊥
Called u (next_called v ∷ es) = (u ≡ v) ⊎ Called u es
Called u (response _ _ ∷ es) = Called u es

abbrev calls : List Event → ℕ
calls [] = 0
calls (next_called _ ∷ es) = suc (calls es)
calls (response _ _ ∷ es) = calls es

-- The header names the scheme Bearer and a token that the secret verifies.
pub record Verified (verify : String → String → Result Claims) (secret : Option String)
    (header : Option String) (user : User) : Type 0 where
  pub text : String
  pub token : String
  pub claims : Claims
  pub given : header ≡ some text
  pub bearer : bearer_token (split_space text) ≡ some token
  pub valid : verify token (jwt_secret secret) ≡ ok claims
  pub same : user ≡ user_of claims

module _ (verify : String → String → Result Claims) (next_throws : Option User → Bool)
    (secret : Option String) where
  none_is_not-some : {t : String} → ¬ (Path (Option String) none (some t))
  none_is_not-some h = ground arith

  no_token : (token : String) → ¬ (bearer_token (split_space "") ≡ some token)
  unfolding split_space
  no_token token h = absurd (none_is_not-some h)

  pub present_of :
      (text token : String) → bearer_token (split_space text) ≡ some token → (text == "") ≡ false
  unfolding split_space
  present_of text token bearer = elim (Bool-cases (text == "")) [
    | inl empty ↦ absurd (
        no_token token (
          subst (λ s. bearer_token (split_space s) ≡ some token) ((eq_iff text "").0 empty) bearer))
    | inr present ↦ present
  ]

  abbrev Once : Option String → List Event → Type 0
  Once header es =
      (user : Option User) × (es
        ≡ next_called user ∷ (if next_throws user then next_called user ∷ [] else []))
      × ((user ≡ none) ⊎ ((u : User) × (user ≡ some u) × Verified verify secret header u))

  proceed-Once :
      (header : Option String) (user : Option User)
      → (user ≡ none) ⊎ ((u : User) × (user ≡ some u) × Verified verify secret header u)
      → Once header (proceed verify next_throws secret user)
  unfolding proceed
  proceed-Once header user h = (user, refl, h)

  optional_user-Verified :
      (text token : String)
      → bearer_token (split_space text) ≡ some token
      → (r : Result Claims) → verify token (jwt_secret secret) ≡ r
      → (optional_user verify next_throws secret r ≡ none)
        ⊎ ((u : User) × (optional_user verify next_throws secret r ≡ some u)
            × Verified verify secret (some text) u)
  unfolding optional_user
  optional_user-Verified text token bearer (err e) valid = inl refl
  optional_user-Verified text token bearer (ok claims) valid = inr (
    user_of claims,
    refl,
    record {
      text = text;
      token = token;
      claims = claims;
      given = refl;
      bearer = bearer;
      valid = valid;
      same = refl;
    },
  )

  optionally-Once :
      (text : String) (o : Option String)
      → bearer_token (split_space text) ≡ o
      → Once (some text) (optionally verify next_throws secret o)
  unfolding optionally
  optionally-Once text none bearer = proceed-Once (some text) none (inl refl)
  optionally-Once text (some token) bearer =
      proceed-Once (some text)
        (optional_user verify next_throws secret (verify token (jwt_secret secret)))
        (optional_user-Verified text token bearer (verify token (jwt_secret secret)) refl)

  -- With the optional authentication the rest of the request runs once if it does not throw, and
  -- a second time, for the same user, if it does.
  pub calls-optional :
      (header : Option String)
      → (user : Option User) × (optional_auth_middleware verify next_throws secret header
          ≡ next_called user ∷ (if next_throws user then next_called user ∷ [] else []))
        × ((user ≡ none) ⊎ ((u : User) × (user ≡ some u) × Verified verify secret header u))
  unfolding optional_auth_middleware
  calls-optional none = proceed-Once none none (inl refl)
  calls-optional (some text) = elim (Bool-cases (text == "")) [
    | inl empty ↦ rw empty (proceed-Once (some text) none (inl refl))
    | inr present ↦ rw present (optionally-Once text (bearer_token (split_space text)) refl)
  ]
