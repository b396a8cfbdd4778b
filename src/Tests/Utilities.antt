-- ===== src/Tests/Utilities.antt =====
-- The error handler, the connections and the logger at concrete inputs.
use transaction_service.Shared.{
  ◌∷◌, ℕ, suc, String, ◌+◌, ◌*◌, ◌-◌, ◌≤◌, nan, Option, none, some, ◌==◌, [], true, false, leb,
  nat_eq, length, if◌then◌else◌, ◌≡◌, refl, ◌⊎◌,
}
use transaction_service.Driver.Errors.{Result, ok, err, exception, plain_error}
use transaction_service.Middleware.ErrorHandler.{
  Thrown, error, error_of, Request, error_handler, classified, with_stack, with_message, IsPublic,
  error_handler_discloses,
}
use transaction_service.Utils.Redis.{retry_delay, Client, set, get}
use transaction_service.Utils.Redis.Delays.{total_delay, total_delay_bounds}
use transaction_service.Utils.Redis
use transaction_service.Utils.Database
use transaction_service.Middleware.RateLimiter.{transaction_limiter}
use transaction_service.Utils.Logger.{
  shut_down, flush_logs, main, transactions, logged, flushed, resolved, exited,
}
use transaction_service.Utils.Database.{connect_options, MongoSettings, Mongoose, connect}
use transaction_service.Utils.Database.Handlers.{
  connect_times, successes, copies, connect_times-copies,
}
use transaction_service.Utils.Logger.Lines.{text, Fields, with_field, no_fields, log_security_event}

abbrev failure : Thrown
failure = error (record {
  name = "MongoServerError";
  message = "E11000 duplicate key error";
  stack = "at save";
  code = some 11000;
})

-- The name that the driver gives its errors is not the one that the handler knows.
duplicate_unknown : classified failure ≡ (500, "Internal server error")
unfolding classified
duplicate_unknown = refl

abbrev http_request : Request
http_request = record { path = "/graphql"; method = "POST"; ip = some "10.0.0.1" }

error_handler_discloses_example :
    let (line, answer) = error_handler (some "production") failure http_request in
    ((error_handler (some "production") (with_stack "elsewhere" failure) http_request).1 ≡ answer)
    × (IsPublic failure
        ⊎ ((error_handler (some "production") (with_message "secret" failure) http_request).1
            ≡ answer))
    × (line.error ≡ (error_of failure).message)
    × (line.stack ≡ (error_of failure).stack)
    × (line.status_code ≡ answer.status)
error_handler_discloses_example =
    error_handler_discloses (some "production") failure http_request "elsewhere" "secret" refl

total_delay_bounds_example :
    (retry_delay 60 ≤ 2000)
    × (retry_delay 60 ≤ retry_delay 61)
    × (total_delay 60 ≡ (if leb 60 40 then 25 * (60 * (60 + 1)) else 2000 * 60 - 39000))
    × (total_delay 60 ≤ 2000 * 60)
total_delay_bounds_example = total_delay_bounds 60

-- A server that never fails and lets nothing expire: under each key a value and its time to live.
abbrev Store : Type 0
Store = String → Option (String × Option ℕ)

abbrev stored : String → Option (String × Option ℕ) → Store → Store
stored key o s k = if key == k then o else s k

abbrev empty_store : Store
empty_store k = none

abbrev value : Option (String × Option ℕ) → Option String
value none = none
value (some (v, _)) = some v

abbrev count : Option (String × Option ℕ) → ℕ
count none = 0
count (some _) = 1

abbrev server : Client Store
server = record {
  set_key = λ k v s. (ok (some "OK"), stored k (some (v, none)) s);
  set_key_ex = λ k v ttl s. (ok (some "OK"), stored k (some (v, some ttl)) s);
  get_key = λ k s. (ok (value (s k)), s);
  del_key = λ k s. (ok (count (s k)), stored k none s);
  exists_key = λ k s. (ok (count (s k)), s);
  ping = λ s. (ok "PONG", s);
  quit = λ s. (ok "OK", s);
}

-- A time to live of zero is none.
without_ttl : (set server "key-1" "tx-1" (some 0) empty_store).1 "key-1" ≡ some ("tx-1", none)
unfolding set
without_ttl = refl

with_ttl : (set server "key-1" "tx-1" (some 60) empty_store).1 "key-1" ≡ some ("tx-1", some 60)
unfolding set
with_ttl = refl

abbrev settings : MongoSettings
settings = record {
  mongodb_uri = none;
  max_pool_setting = nan;
  min_pool_setting = nan;
  mongodb_user = some "admin";
  mongodb_password = none;
}

-- The second attempt fails.
abbrev at : ℕ → Result Unit
at n = if nat_eq n 1 then err (exception plain_error "connection lost") else ok tt

abbrev server_of_documents : Mongoose ℕ
server_of_documents = record {
  connect_to = λ uri options n. (at n, suc n);
  close_connection = λ n. (ok tt, n);
  ready_state = λ n. 1;
  ping_admin = λ n. (ok tt, n);
}

two_successes : (connect_times server_of_documents settings 3 0 []).2 ≡ copies 2
unfolding connect_times connect
two_successes = refl

connect_times-copies_example :
    let (results, _, hs) = connect_times server_of_documents settings 3 0 [] in
    (length results ≡ 3) × (hs ≡ copies (successes results))
connect_times-copies_example = connect_times-copies server_of_documents settings 3 0

abbrev event_data : Fields
event_data =
    with_field "event" (text "LOGIN")
      (with_field "eventTime" (text "never") (with_field "ip" (text "10.0.0.1") no_fields))

-- The data replace the name of the event.
event_replaced : (log_security_event "FRAUD" event_data "2024").fields "event" ≡ text "LOGIN"
unfolding log_security_event
event_replaced = refl

-- A user without a password is no credential.
no_credentials : (connect_options settings).auth ≡ none
unfolding connect_options
no_credentials = refl

-- Nothing is pinged on a connection that is not open, and a failing ping is no exception.
closed_unhealthy :
    (Database.health_check (record server_of_documents { ready_state = λ n. 0 }) 0).0 ≡ false
unfolding Database.health_check
closed_unhealthy = refl

failing_unhealthy :
    (Redis.health_check
      (record server { ping = λ s. (err (exception plain_error "connection lost"), s) })
      empty_store).0
    ≡ false
unfolding Redis.health_check
failing_unhealthy = refl

-- The process exits once both loggers have called back, and not before.
both_flushed :
    shut_down "SIGINT" (λ name. true)
    ≡ logged "Received SIGINT, flushing logs..."
      ∷ flushed main
      ∷ flushed transactions
      ∷ resolved
      ∷ exited 0
      ∷ []
unfolding shut_down flush_logs
both_flushed = refl

stuck :
    shut_down "SIGTERM" (λ name. false)
    ≡ logged "Received SIGTERM, flushing logs..." ∷ flushed main ∷ []
unfolding shut_down flush_logs
stuck = refl

-- A request above the limit is answered with 429.
too_many_requests :
    (transaction_limiter.handler
      (record { ip = none; path = "/graphql"; user_agent = none })
      (some "60")).1.status
    ≡ 429
unfolding transaction_limiter
too_many_requests = refl
