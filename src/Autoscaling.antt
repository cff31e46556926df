-- ===== src/Autoscaling.antt =====
-- controllers/autoscaling_controller.go, controllers/aodh_controller.go and pkg/autoscaling
pub mod Pods
pub mod Calls
pub mod Config
pub mod Aodh
pub mod Normal
