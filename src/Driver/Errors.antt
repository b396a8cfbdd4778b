-- ===== src/Driver/Errors.antt =====
-- What a program throws, and the results of calls. The classes are those that the code constructs
-- or tells apart: Nest's exceptions, `Error`, `AppError` of src/utils/middleware/error-handler.ts,
-- mongoose's and MongoDB's errors, and a thrown value that is no `Error`.
use transaction_service.Shared.{ℕ, String, ◌≡◌, arith}

pub data ErrorClass : Type 0 where
  bad_request not_found internal_server_error plain_error validation_error cast_error : ErrorClass
  mongo_error app_error : ℕ → ErrorClass
  non_error : ErrorClass

pub record Exception : Type 0 where
  pub error_class : ErrorClass
  pub message : String

pub data Result (A : Type 0) : Type 0 where
  ok : A → Result A
  err : Exception → Result A

-- `new BadRequestException(message)` and the like
abbrev pub exception : ErrorClass → String → Exception
exception c m = record { error_class = c; message = m }

pub ok-injective : {A : Type 0} {a b : A} → Path (Result A) (ok a) (ok b) → a ≡ b
ok-injective h = ground arith
