-- ===== src/Utils/Logger/Overrides.antt =====
-- Which fields of a line the caller's data can change, in the helpers of
-- src/utils/logger/logger.ts that spread them.
use transaction_service.Shared.{String, ℤ, false, ◌==◌, ◌≡◌, refl}
use transaction_service.Utils.Logger.Lines.{
  Json, missing, undefined, text, number, object, Fields, over, log_security_event, log_performance,
  log_database_query,
}

over-missing : (v : Json) → over v missing ≡ v
over-missing missing = refl
over-missing undefined = refl
over-missing (text s) = refl
over-missing (number k) = refl
over-missing (object f) = refl

-- A security event always has the time of the call. Any other field that the data have is in the
-- line as the data give it, the name of the event included, and what they do not have is empty but
-- for that name. A performance metric and a database query keep no field against their metadata:
-- the operation or query and the duration are in the line only where the metadata have none.
pub spread_fields :
    (event operation query time : String) (duration : ℤ) (data_ : Fields) (n : String)
    → ("eventTime" == n) ≡ false
    → ("event" == n) ≡ false
    → let security = (log_security_event event data_ time).fields in
      let performance = (log_performance operation duration data_).fields in
      let database = (log_database_query query duration data_).fields in
      (security "eventTime" ≡ text time)
      × (security "event" ≡ over (data_ "event") (text event))
      × (security n ≡ data_ n)
      × (performance "operation" ≡ over (data_ "operation") (text operation))
      × (performance "duration" ≡ over (data_ "duration") (number duration))
      × (performance "durationMs" ≡ over (data_ "durationMs") (number duration))
      × (database "query" ≡ over (data_ "query") (text query))
      × (database "duration" ≡ over (data_ "duration") (number duration))
unfolding log_security_event log_performance log_database_query
spread_fields event operation query time duration data_ n h k =
    (refl, refl, rw (h, k) (over-missing (data_ n)), refl, refl, refl, refl, refl)
