-- ===== src/Utils/Logger/Lines.antt =====
-- The lines that the helpers of src/utils/logger/logger.ts hand to a logger.
use transaction_service.Shared.{String, ℤ, Option, none, some, ◌==◌, if◌then◌else◌}
use transaction_service.Utils.Logger.{
  Level, info, debug, warn, error, LoggerName, main, transactions,
}

-- A value of a field; an object by what it has under each name, `missing` where it has nothing.
pub data Json : Type 0 where
  missing undefined : Json
  text : String → Json
  number : ℤ → Json
  object : (String → Json) → Json

abbrev pub Fields : Type 0
Fields = String → Json

abbrev pub no_fields : Fields
no_fields n = missing

-- `{ ...fields, name: value }`
abbrev pub with_field : String → Json → Fields → Fields
with_field name value fields n = if name == n then value else fields n

abbrev pub over : Json → Json → Json
over missing below = below
over v below = v

-- `{ ...fields, ...data }`
abbrev pub spread : Fields → Fields → Fields
spread fields data_ n = over (data_ n) (fields n)

-- A text that may be missing.
abbrev text_or_undefined : Option String → Json
text_or_undefined none = undefined
text_or_undefined (some s) = text s

pub record Line : Type 0 where
  pub logger : LoggerName
  pub level : Level
  pub fields : Fields
  pub message : String

pub record TransactionEvent : Type 0 where
  pub transaction_id : String
  pub type : String
  pub status : String
  pub amount : ℤ
  pub from_account : Option String
  pub to_account : Option String
  pub user_id : Option String
  pub metadata : Json

unfoldable pub log_transaction : TransactionEvent → Line
log_transaction d = record {
  logger = transactions;
  level = info;
  fields = with_field "metadata" d.metadata (
      with_field "userId" (text_or_undefined d.user_id) (
        with_field "toAccount" (text_or_undefined d.to_account) (
          with_field "fromAccount" (text_or_undefined d.from_account) (
            with_field "amount" (number d.amount) (
              with_field "status" (text d.status) (
                with_field "type" (text d.type)
                  (with_field "transactionId" (text d.transaction_id) no_fields)))))));
  message = "Transaction processed";
}

-- `cause` is `missing` where the error has a falsy one or none.
pub record LoggedError : Type 0 where
  pub name : String
  pub message : String
  pub stack : String
  pub cause : Json

abbrev with_cause : Json → Fields → Fields
with_cause missing fields = fields
with_cause cause fields = with_field "cause" cause fields

unfoldable pub log_error : LoggedError → Json → Line
log_error e context = record {
  logger = main;
  level = error;
  fields = with_field "context" context (
      with_field "error"
        (object (
          with_cause e.cause (
            with_field "name" (text e.name) (
              with_field "stack" (text e.stack)
                (with_field "message" (text e.message) no_fields)))))
        no_fields);
  message = "Application error";
}

-- `time` is `new Date().toISOString()`.
unfoldable pub log_security_event : String → Fields → (time : String) → Line
log_security_event event data_ time = record {
  logger = main;
  level = warn;
  fields =
      with_field "eventTime" (text time) (spread (with_field "event" (text event) no_fields) data_);
  message = "Security event";
}

unfoldable pub log_performance : String → ℤ → Fields → Line
log_performance operation duration metadata = record {
  logger = main;
  level = info;
  fields =
      spread
        (with_field "durationMs" (number duration) (
          with_field "duration" (number duration)
            (with_field "operation" (text operation) no_fields)))
        metadata;
  message = "Performance metric";
}

pub record HttpRequest : Type 0 where
  pub method : String
  pub url : String
  pub headers : Fields
  pub ip : Option String
  pub remote_address : Option String

-- `req.ip || req.connection.remoteAddress`
abbrev pub address_of : HttpRequest → Option String
address_of req = elim req.ip [
  | none ↦ req.remote_address
  | some ip ↦ if ip == "" then req.remote_address else some ip
]

unfoldable pub log_http_request : HttpRequest → (status_code duration : ℤ) → Line
log_http_request req status_code duration = record {
  logger = main;
  level = info;
  fields = with_field "duration" (number duration) (
      with_field "res" (object (with_field "statusCode" (number status_code) no_fields)) (
        with_field "req"
          (object (
            with_field "remoteAddress" (text_or_undefined (address_of req)) (
              with_field "headers" (object req.headers) (
                with_field "url" (text req.url)
                  (with_field "method" (text req.method) no_fields)))))
          no_fields));
  message = "HTTP Request";
}

unfoldable pub log_database_query : String → ℤ → Fields → Line
log_database_query query duration metadata = record {
  logger = main;
  level = debug;
  fields =
      spread (with_field "duration" (number duration) (with_field "query" (text query) no_fields))
        metadata;
  message = "Database query";
}
