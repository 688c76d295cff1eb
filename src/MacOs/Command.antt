-- ===== src/MacOs/Command.antt =====
-- How the daemon runs a command (host/macos/v4gwd-arp.c `run`). What `fork` and `waitpid` return is a
-- parameter; the status word is that of <sys/wait.h>. The child is taken to end.
pub mod Laws
use v4_with_v6_nh.Common.{ℕ, zero, suc, ◌/◌, ◌%◌, Bool, true, false, ◌&&◌, ◌==◌, if◌then◌else◌}

-- How the loop over `waitpid` ends: with a status word, or with an error that is not EINTR.
pub data Waited : Type 0 where
  reaped : ℕ → Waited
  failed : Waited

-- `fork() >= 0`; what the local `status` holds before it is set; how often `waitpid` is interrupted.
pub record Spawned : Type 0 where
  pub forked : Bool
  pub uninitialized : ℕ
  pub interrupts : ℕ
  pub waited : Waited

-- `while (waitpid(pid, &status, 0) < 0 && errno == EINTR)`, and the status that it leaves.
unfoldable pub wait_status : ℕ → Waited → ℕ → ℕ
wait_status (suc n) w status = wait_status n w status
wait_status zero (reaped s) status = s
wait_status zero failed status = status

-- `WIFEXITED(status) && WEXITSTATUS(status) == 0`
unfoldable pub exited_zero : ℕ → Bool
exited_zero status = (status % 128 == 0) && (status / 256 % 256 == 0)

-- `run(argv) == 0`
unfoldable pub command_succeeds : Spawned → Bool
unfolding wait_status exited_zero
command_succeeds s =
    if s.forked then exited_zero (wait_status s.interrupts s.waited s.uninitialized) else false
