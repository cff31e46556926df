-- ===== src/Ceilometer.antt =====
-- controllers/ceilometer_controller.go
pub mod Pods
pub mod Calls
pub mod Config
pub mod Normal
