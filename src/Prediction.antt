-- ===== src/Prediction.antt =====
-- libs/sentinel/prediction: forecasts of the queues from the recent snapshots.
pub mod Forecaster
pub mod Agent
pub mod Bands
pub mod Steady
