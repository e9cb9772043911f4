-- ===== src/Settings.antt =====
-- What is read of the environment and made once: the configurations of crypto, storage and logger,
-- the factories of crypto, storage and pubsub, and the global instances of crypto, logger and otel.
pub mod Configs
pub mod Logs
pub mod Globals
pub mod Factories
mod Tests
