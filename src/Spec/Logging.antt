-- ===== src/Spec/Logging.antt =====
-- api/v1beta1/logging_types.go
use ceilometer_operator.Prelude.{ℕ, String}

pub record LoggingSpec : Type 0 where
  pub network : String
  pub ip_addr : String
  pub port : ℕ
  pub target_port : ℕ
  pub clo_namespace : String
  pub rsyslog_retries : ℕ
  pub rsyslog_queue_type : String
  pub rsyslog_queue_size : ℕ

-- `LoggingStatus` without the conditions; the map of hashes may be nil.
pub record LoggingStatus (HashMap : Type 0) : Type 0 where
  pub hash : HashMap
