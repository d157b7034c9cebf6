-- ===== src/Worker/Heartbeat.antt =====
-- The time that a worker may be silent: Worker.get_heartbeat_ttl of scheduler/worker/worker.py.
use daily_scheduler.Base.{ℕ, zero, suc, ◌+◌, ◌≡◌, true, arith}
use daily_scheduler.Base.Int.{ℤ, pos, negsuc, ◌+ℤ◌, ◌≤ℤ◌, leb_ℤ}
use daily_scheduler.Worker.Perform.{get_heartbeat_ttl}

-- While the job has not worked for longer than its timeout, the time of a heartbeat is at least a
-- minute and at most a minute more than the monitoring interval.
pub get_heartbeat_ttl_bounds :
    (interval : ℕ) (timeout : ℤ) (working_time : ℕ)
    → leb_ℤ (pos working_time) timeout ≡ true
    → (pos 60 ≤ℤ get_heartbeat_ttl interval timeout working_time)
      × (get_heartbeat_ttl interval timeout working_time ≤ℤ pos (interval + 60))
unfolding get_heartbeat_ttl ◌+ℤ◌
get_heartbeat_ttl_bounds interval (negsuc t) w h = (ground arith, ground arith)
get_heartbeat_ttl_bounds interval (pos t) zero h = (ground arith, ground arith)
get_heartbeat_ttl_bounds interval (pos t) (suc w) h = (ground arith, ground arith)
