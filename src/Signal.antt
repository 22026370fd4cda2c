-- ===== src/Signal.antt =====
-- src/signal.cc: queueing a signal with a pointer for one thread.
pub mod Table
pub mod Unmask
pub mod Queue
use sysfail.Prelude.{Bool, true, false, ◌&&◌, if◌then◌else◌}
use sysfail.Prelude.Int.{ℤ, pos, negsuc, neg, eqb_ℤ}

abbrev pub esrch : ℤ
esrch = pos 3

-- What `_send_signal` comes to: it returns with the signal queued, it returns after `on_esrch` or
-- with no callback to make, or its assertion fails.
pub data Sent : Type 0 where
  queued called_back ignored assert_failed : Sent

abbrev pub is_negative : ℤ → Bool
is_negative (pos n) = false
is_negative (negsuc n) = true

-- The code after the syscall, by its answer and by `t && on_esrch`.
unfoldable pub send_signal : ℤ → Bool → Sent
send_signal ret callback =
    if is_negative ret && eqb_ℤ ret (neg esrch)
    then (if callback then called_back else ignored)
    else if eqb_ℤ ret (pos 0)
    then queued
    else assert_failed
