-- ===== src/Utils/Logger.antt =====
-- The configuration of the two loggers in src/utils/logger/logger.ts, and how they are flushed. The
-- library pino, which writes the lines, and the formats of a level and of a time are not part of it.
pub mod Lines
pub mod Overrides
use transaction_service.Shared.{
  ℕ, String, Option, none, some, List, [], ◌∷◌, ◌++◌, Bool, true, false, not, ◌==◌, or_else,
  if◌then◌else◌,
}
use transaction_service.Utils.Environment.{env_or, followed}

pub data Level : Type 0 where
  trace debug info warn error fatal : Level

-- The environment, and what the process and the clock say when the module is loaded: `date` is
-- `new Date().toISOString().split('T')[0]`, `join` is `path.join`, and `rotating_file` is whether
-- `pino-rotating-file` can be loaded and opens its files.
pub record LoggerSettings : Type 0 where
  pub log_dir : Option String
  pub log_level : Option String
  pub node_env : Option String
  pub service_name : Option String
  pub hostname : Option String
  pub os_hostname : String
  pub pid : ℕ
  pub date : String
  pub join : String → String → String
  pub rotating_file : Bool

abbrev pub log_directory : LoggerSettings → String
log_directory env = env_or env.log_dir "./logs"

-- The directories that loading the module makes.
abbrev pub made_directories : (exists_sync : String → Bool) → LoggerSettings → List String
made_directories exists_sync env =
    if exists_sync (log_directory env) then [] else log_directory env ∷ []

abbrev pub log_level : LoggerSettings → String
log_level env = env_or env.log_level "info"

-- `process.env.NODE_ENV !== 'production'`
abbrev pub is_development : LoggerSettings → Bool
is_development env = not (or_else env.node_env "" == "production")

-- A file, with the level from which lines go to it, or the pretty printer.
pub record Target : Type 0 where
  pub level : Level
  pub destination : String

pub data Transport : Type 0 where
  pretty :
      (translate_time ignore message_format : String) → (colorize single_line : Bool) → Transport
  files : List Target → Transport

pub record LoggerOptions : Type 0 where
  pub level : String
  pub service : String
  pub pid : ℕ
  pub hostname : Option String
  pub transport : Option Transport

unfoldable pub base_config : LoggerSettings → LoggerOptions
base_config env = record {
  level = log_level env;
  service = env_or env.service_name "transaction-service";
  pid = env.pid;
  hostname = some (env_or env.hostname env.os_hostname);
  transport = none;
}

-- The printer of times is left out.
unfoldable pub dev_config : LoggerSettings → LoggerOptions
dev_config env = record (base_config env) {
  transport = some (pretty "yyyy-mm-dd HH:MM:ss" "pid,hostname" "{msg}" true false);
}

-- `${name}-${date}.log` in the directory
abbrev pub dated_file : LoggerSettings → (String → String) → String
dated_file env name = env.join (log_directory env) (name env.date)

abbrev application_file : String → String
application_file date = followed (followed "application-" date) ".log"

abbrev error_file : String → String
error_file date = followed (followed "error-" date) ".log"

abbrev transaction_file : String → String
transaction_file date = followed (followed "transaction-" date) ".log"

-- Not used by the code. Each target also has `mkdir: true`.
unfoldable pub prod_config : LoggerSettings → LoggerOptions
prod_config env = record (base_config env) {
  transport = some (
      files (
        record { level = trace; destination = dated_file env application_file }
        ∷ record { level = error; destination = dated_file env error_file }
        ∷ []));
}

-- A file that is rotated, or a plain one.
pub data Stream : Type 0 where
  rotating : (filename size : String) → (max_files : ℕ) → Stream
  plain : (dest : String) → Stream

-- The streams of `pino.multistream`, each with its level.
unfoldable pub rotating_file_stream : LoggerSettings → List (Level × Stream)
rotating_file_stream env =
    if env.rotating_file
    then (trace, rotating (env.join (log_directory env) "application.log") "20M" 14)
      ∷ (error, rotating (env.join (log_directory env) "error.log") "20M" 30)
      ∷ []
    else (trace, plain (dated_file env application_file))
      ∷ (error, plain (dated_file env error_file))
      ∷ []

unfoldable pub transaction_stream : LoggerSettings → Stream
transaction_stream env =
    if env.rotating_file
    then rotating (env.join (log_directory env) "transaction.log") "50M" 90
    else plain (dated_file env transaction_file)

-- A logger's options, and its streams where the code hands some over.
pub record LoggerSetup : Type 0 where
  pub options : LoggerOptions
  pub streams : List (Level × Stream)

unfoldable pub main_logger : LoggerSettings → LoggerSetup
main_logger env =
    if is_development env
    then record { options = dev_config env; streams = [] }
    else record { options = base_config env; streams = rotating_file_stream env }

unfoldable pub transaction_logger : LoggerSettings → LoggerSetup
transaction_logger env = record {
  options = record {
    level = "info";
    service = "transaction-audit";
    pid = env.pid;
    hostname = none;
    transport = none;
  };
  streams = (info, transaction_stream env) ∷ [];
}

pub data LoggerName : Type 0 where
  main transactions : LoggerName

-- What flushing and shutting down do, in order.
pub data LoggerEvent : Type 0 where
  logged : String → LoggerEvent
  flushed : LoggerName → LoggerEvent
  resolved : LoggerEvent
  exited : ℕ → LoggerEvent

-- `calls_back` says which of the loggers calls back when it is flushed.
abbrev when : Bool → List LoggerEvent → List LoggerEvent
when true es = es
when false es = []

unfoldable pub flush_logs : (LoggerName → Bool) → List LoggerEvent
flush_logs calls_back =
    flushed main
    ∷ when (calls_back main) (flushed transactions ∷ when (calls_back transactions) (resolved ∷ []))

-- Whether the promise of `flushLogs` resolves.
abbrev pub resolves : List LoggerEvent → Bool
resolves [] = false
resolves (resolved ∷ es) = true
resolves (_ ∷ es) = resolves es

-- The handlers of SIGINT and SIGTERM, by the name of the signal.
unfoldable pub shut_down : String → (LoggerName → Bool) → List LoggerEvent
shut_down signal calls_back =
    let flushing = flush_logs calls_back in
    logged (followed (followed "Received " signal) ", flushing logs...") ∷ flushing
    ++ when (resolves flushing) (exited 0 ∷ [])
