-- ===== src/MetricStorage.antt =====
-- controllers/metricstorage_controller.go and pkg/metricstorage
pub mod Calls
pub mod Domain
pub mod Objects
pub mod Watches
pub mod Targets
pub mod Normal
