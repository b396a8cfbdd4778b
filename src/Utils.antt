-- ===== src/Utils.antt =====
-- The connections and the logger: src/utils/redis.ts, src/utils/database.ts and
-- src/utils/logger/logger.ts.
pub mod Environment
pub mod Redis
pub mod Database
pub mod Logger
