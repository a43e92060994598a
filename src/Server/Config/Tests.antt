-- ===== src/Server/Config/Tests.antt =====
-- The section that the source has by default, and one whose values are narrowed.
use shared_bike_refactor.Base.{◌≡◌, refl}
use shared_bike_refactor.Base.Int.{pos}
use shared_bike_refactor.Server.Config.{Uring, uring_is_bad, clamp_uring, validate_uring}
use shared_bike_refactor.Server.Config.Bounds.{InBounds, validate_uring-InBounds}

abbrev wide : Uring
wide = record {
  sq_depth = pos 256;
  cq_depth = pos 64;
  workers = pos 5000;
  rx_buf_bytes = pos 65536;
  send_backlog_limit_bytes = pos 1048576;
  idle_timeout_ms = pos 60000;
  accept_backlog = pos 1024;
}

abbrev narrowed : Uring
narrowed = record wide { cq_depth = pos 256; workers = pos 1024 }

validate_uring-InBounds_example :
    InBounds narrowed × (narrowed.send_backlog_limit_bytes ≡ wide.send_backlog_limit_bytes)
unfolding validate_uring uring_is_bad clamp_uring
validate_uring-InBounds_example = validate_uring-InBounds wide narrowed refl
