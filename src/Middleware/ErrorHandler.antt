-- ===== src/Middleware/ErrorHandler.antt =====
-- `AppError`, `errorHandler` and `notFoundHandler` of src/utils/middleware/error-handler.ts.
use transaction_service.Shared.{
  ℕ, String, Option, none, some, Bool, true, false, ◌&&◌, ◌==◌, nat_eq, if◌then◌else◌, ◌≡◌, refl,
  Bool-cases, inl, inr, ◌⊎◌,
}

-- What the handler reads of an `Error`. `code` is set by the database's errors.
pub record ErrorObject : Type 0 where
  pub name : String
  pub message : String
  pub stack : String
  pub code : Option ℕ

pub data Thrown : Type 0 where
  error : ErrorObject → Thrown
  app_error : ErrorObject → (status_code : ℕ) → (is_operational : Bool) → Thrown

-- `new AppError(message, statusCode)`: `captureStackTrace` fills in the stack.
abbrev pub new_app_error : String → ℕ → String → Thrown
new_app_error message status_code stack =
    app_error (record { name = "Error"; message = message; stack = stack; code = none }) status_code
      true

pub record Request : Type 0 where
  pub path : String
  pub method : String
  pub ip : Option String

-- The response's status and its JSON body.
pub record ErrorAnswer : Type 0 where
  pub status : ℕ
  pub error : String
  pub stack : Option String

pub record ErrorLine : Type 0 where
  pub error : String
  pub stack : String
  pub status_code : ℕ
  pub path : String
  pub method : String
  pub ip : Option String

abbrev pub error_of : Thrown → ErrorObject
error_of (error e) = e
error_of (app_error e _ _) = e

-- `err.code === 11000`
abbrev pub has_code : ℕ → Option ℕ → Bool
has_code n none = false
has_code n (some m) = nat_eq n m

-- The status and the message that the handler chooses.
unfoldable pub classified : Thrown → ℕ × String
classified (app_error e status_code _) = (status_code, e.message)
classified (error e) =
    if e.name == "ValidationError"
    then (400, e.message)
    else if e.name == "CastError"
    then (400, "Invalid ID format")
    else if e.name == "MongoError" && has_code 11000 e.code
    then (409, "Duplicate key error")
    else (500, "Internal server error")

-- `node_env` is `process.env.NODE_ENV`.
abbrev pub is_development : Option String → Bool
is_development none = false
is_development (some s) = s == "development"

unfoldable pub error_handler : Option String → Thrown → Request → ErrorLine × ErrorAnswer
error_handler node_env err req =
    let e = error_of err in
    let (status_code, message) = classified err in
    (
      record {
        error = e.message;
        stack = e.stack;
        status_code = status_code;
        path = req.path;
        method = req.method;
        ip = req.ip;
      },
      record {
        status = status_code;
        error = message;
        stack = if is_development node_env then some e.stack else none;
      },
    )

-- `res.status(404).json({ error, path })`
unfoldable pub not_found_handler : Request → ℕ × String × String
not_found_handler req = (404, "Route not found", req.path)

-- Another stack, and another message.
abbrev pub with_stack : String → Thrown → Thrown
with_stack s (error e) = error (record e { stack = s })
with_stack s (app_error e n b) = app_error (record e { stack = s }) n b

abbrev pub with_message : String → Thrown → Thrown
with_message m (error e) = error (record e { message = m })
with_message m (app_error e n b) = app_error (record e { message = m }) n b

-- Errors whose message is meant for the client.
abbrev pub IsPublic : Thrown → Type 0
IsPublic (app_error e n b) = Unit
IsPublic (error e) = (e.name == "ValidationError") ≡ true

same_message :
    (m : String) (e : ErrorObject)
    → (e.name == "ValidationError") ≡ false
    → classified (with_message m (error e)) ≡ classified (error e)
unfolding classified
same_message m e h = rw h refl

-- Unless the environment is named development, the stack of an error never reaches the client, and
-- its message does so for an `AppError` and a validation error only: the answer is the same whatever
-- they are. The log line has both as they are, with the status of the answer.
pub error_handler_discloses :
    (node_env : Option String) (err : Thrown) (req : Request) (stack message : String)
    → is_development node_env ≡ false
    → let (line, answer) = error_handler node_env err req in
      ((error_handler node_env (with_stack stack err) req).1 ≡ answer)
      × (IsPublic err ⊎ ((error_handler node_env (with_message message err) req).1 ≡ answer))
      × (line.error ≡ (error_of err).message)
      × (line.stack ≡ (error_of err).stack)
      × (line.status_code ≡ answer.status)
unfolding error_handler classified
error_handler_discloses node_env (app_error e n b) req stack message h =
    (rw h refl, inl tt, refl, refl, refl)
error_handler_discloses node_env (error e) req stack message h = (
  rw h refl,
  elim (Bool-cases (e.name == "ValidationError")) [
    | inl public_ ↦ inl public_
    | inr private_ ↦ inr (rw (h, private_) refl)
  ],
  refl,
  refl,
  refl,
)
