-- ===== src/Kafka.antt =====
-- The package kafka: configurations, producers and consumers over the sarama library.
pub mod Sarama
pub mod Options
pub mod Broker
pub mod Consume
mod Tests
