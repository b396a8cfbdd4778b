-- ===== src/Utils/Database.antt =====
-- `Database` of src/utils/database.ts. mongoose is a parameter: what `connect`, `close` and `ping`
-- answer from a state of the world outside. The state of the process that the code changes is the
-- list of the handlers that it has registered. Log lines are left out.
pub mod Handlers
use transaction_service.Shared.{
  ℕ, String, Option, none, some, List, [], ◌∷◌, ◌++◌, Bool, true, false, ◌&&◌, nat_eq, Number,
  finite, pos, num_or, or_else, if◌then◌else◌,
}
use transaction_service.Driver.Errors.{Exception, Result, ok, err}
use transaction_service.Utils.Environment.{env_or, is_set}

pub record Credentials : Type 0 where
  pub username : String
  pub password : String

-- Numbers in hundredths where they come from `Number(…)`.
pub record ConnectOptions : Type 0 where
  pub max_pool_size : Number
  pub min_pool_size : Number
  pub server_selection_timeout_ms : ℕ
  pub socket_timeout_ms : ℕ
  pub family : ℕ
  pub auth_source : String
  pub auth : Option Credentials

-- The variables of the environment.
pub record MongoSettings : Type 0 where
  pub mongodb_uri : Option String
  pub max_pool_setting : Number
  pub min_pool_setting : Number
  pub mongodb_user : Option String
  pub mongodb_password : Option String

abbrev pub connect_uri : MongoSettings → String
connect_uri env = env_or env.mongodb_uri "mongodb://localhost:27017/transaction_db"

unfoldable pub connect_options : MongoSettings → ConnectOptions
connect_options env = record {
  max_pool_size = num_or env.max_pool_setting (finite (pos 1000));
  min_pool_size = num_or env.min_pool_setting (finite (pos 500));
  server_selection_timeout_ms = 5000;
  socket_timeout_ms = 45000;
  family = 4;
  auth_source = "admin";
  auth =
      if is_set env.mongodb_user && is_set env.mongodb_password
      then some (record {
        username = or_else env.mongodb_user "";
        password = or_else env.mongodb_password "";
      })
      else none;
}

-- The handlers that `connect` registers; that of SIGINT disconnects and exits.
pub data Handler : Type 0 where
  on_connected on_error on_disconnected on_sigint : Handler

pub record Mongoose (W : Type 0) : Type 0 where
  pub connect_to : String → ConnectOptions → W → Result Unit × W
  pub close_connection : W → Result Unit × W
  pub ready_state : W → ℕ
  pub ping_admin : W → Result Unit × W

abbrev pub handlers : List Handler
handlers = on_connected ∷ on_error ∷ on_disconnected ∷ on_sigint ∷ []

-- After `mongoose.connect`: the handlers are registered if it has succeeded, and its failure is
-- thrown on.
abbrev pub connected :
    {W : Type 0} → Result Unit × W → List Handler → Result Unit × W × List Handler
connected (ok _, w) hs = (ok tt, w, hs ++ handlers)
connected (err e, w) hs = (err e, w, hs)

abbrev pub is_ok : {A : Type 0} → Result A → Bool
is_ok (ok _) = true
is_ok (err _) = false

-- What a run of the handler of SIGINT does: `process.exit(0)`, or an unhandled rejection.
pub data Shutdown : Type 0 where
  exited : Shutdown
  unhandled : Exception → Shutdown

abbrev pub after_close : Result Unit → Shutdown
after_close (ok _) = exited
after_close (err e) = unhandled e

module _ {W : Type 0} (mongoose : Mongoose W) where
  unfoldable pub connect : MongoSettings → W → List Handler → Result Unit × W × List Handler
  connect env w hs = connected (mongoose.connect_to (connect_uri env) (connect_options env) w) hs

  unfoldable pub disconnect : W → Result Unit × W
  disconnect w = mongoose.close_connection w

  unfoldable pub handle_sigint : W → Shutdown × W
  unfolding disconnect
  handle_sigint w = let (result, w') = disconnect w in (after_close result, w')

  -- It never throws, and pings only an open connection.
  unfoldable pub health_check : W → Bool × W
  health_check w =
      if nat_eq (mongoose.ready_state w) 1
      then (let (result, w') = mongoose.ping_admin w in (is_ok result, w'))
      else (false, w)
