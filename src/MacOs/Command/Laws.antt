-- ===== src/MacOs/Command/Laws.antt =====
-- What `run` (host/macos/v4gwd-arp.c) tells of the command.
use v4_with_v6_nh.Common.{ℕ, zero, suc, ◌+◌, ◌*◌, ◌<◌, ◌≡◌, refl, ◌∙◌, ap, true, false, ◌==◌, arith}
use v4_with_v6_nh.MacOs.Command.{Waited, reaped, failed, wait_status, exited_zero, command_succeeds}

wait_status_lem :
    (n : ℕ) (w : Waited) (status : ℕ) → wait_status n w status ≡ wait_status 0 w status
unfolding wait_status
wait_status_lem zero w status = refl
wait_status_lem (suc n) w status = wait_status_lem n w status

-- A child that exits leaves the exit code in the high byte of the status word; one that is killed
-- leaves the signal, and 128 with a core dump, in the low byte.
exited_zero-exit : (code : ℕ) → code < 256 → exited_zero (code * 256) ≡ (code == 0)
unfolding exited_zero
exited_zero-exit code h = ground arith

exited_zero-signal : (sig core : ℕ) → 0 < sig → sig < 128 → exited_zero (core * 128 + sig) ≡ false
unfolding exited_zero
exited_zero-signal sig core h k = ground arith

succeeds-wait :
    (n status : ℕ) (w : Waited)
    → command_succeeds
        (record { forked = true; uninitialized = status; interrupts = n; waited = w })
      ≡ exited_zero (wait_status 0 w status)
unfolding command_succeeds
succeeds-wait n status w = ap exited_zero (wait_status_lem n w status)

-- Where `waitpid` gives the status of the child, `run` succeeds exactly when the child has exited with
-- code 0, however often the wait is interrupted and whatever `status` held before: another code and a
-- signal are failures, as is a `fork` that fails. Where `waitpid` fails with another error than EINTR, `run`
-- takes what `status` held before for the status of the child.
pub command_succeeds_lem :
    (n status : ℕ)
    → ((code : ℕ)
        → code < 256
        → command_succeeds (record {
          forked = true;
          uninitialized = status;
          interrupts = n;
          waited = reaped (code * 256);
        })
          ≡ (code == 0))
      × ((sig core : ℕ)
          → 0 < sig
          → sig < 128
          → command_succeeds (record {
            forked = true;
            uninitialized = status;
            interrupts = n;
            waited = reaped (core * 128 + sig);
          })
            ≡ false)
      × ((w : Waited)
          → command_succeeds
              (record { forked = false; uninitialized = status; interrupts = n; waited = w })
            ≡ false)
      × (command_succeeds
            (record { forked = true; uninitialized = status; interrupts = n; waited = failed })
          ≡ command_succeeds
              (record { forked = true; uninitialized = 0; interrupts = 0; waited = reaped status }))
unfolding command_succeeds wait_status
command_succeeds_lem n status = (
  λ code h. succeeds-wait n status (reaped (code * 256)) ∙ exited_zero-exit code h,
  λ sig core h k.
      succeeds-wait n status (reaped (core * 128 + sig)) ∙ exited_zero-signal sig core h k,
  λ w. refl,
  succeeds-wait n status failed,
)
