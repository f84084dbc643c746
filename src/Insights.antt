-- ===== src/Insights.antt =====
-- apps/insights-api: kills, listings, queries, rates, anomalies, metrics, timelines and synthetic logs.
pub mod Anchor
pub mod Padding
pub mod Window
pub mod Anomaly
pub mod Listings
pub mod Kills
pub mod Metrics
pub mod Timeline
pub mod Repository
pub mod Synthetic
pub mod Rates
