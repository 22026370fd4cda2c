-- ===== src/Signal/Queue.antt =====
-- `_send_signal` of src/signal.cc: the `siginfo_t` that it fills in, its syscall, and what follows.
use sysfail.Prelude.{Bool, not, ◌&&◌, ◌∷◌}
use sysfail.Prelude.Int.{ℤ, pos, negsuc, eqb_ℤ}
use sysfail.Doubles.{Doubles}
use sysfail.Host.{Call, SigInfo, Host, World, queued}
use sysfail.Syscall.{as_loaded, syscall}
use sysfail.Signal.{Sent, called_back, ignored, assert_failed, send_signal}

abbrev pub sys_rt_tgsigqueueinfo : ℤ
sys_rt_tgsigqueueinfo = pos 297

-- SI_QUEUE
abbrev pub si_queue : ℤ
si_queue = negsuc 0

module _ {d : Doubles} (h : Host d) where
  -- `info`, with the pointer `t`
  abbrev pub siginfo : ℤ → SigInfo
  siginfo t = record { si_code = si_queue; si_pid = h.pid; si_uid = h.uid; si_value = t }

  -- `syscall(pid, tid, sig, &info, 0, 0, SYS_rt_tgsigqueueinfo)`
  abbrev pub queue_call : ℤ → ℤ → Call
  queue_call tid sig = as_loaded h.pid tid sig h.info_addr (pos 0) (pos 0) sys_rt_tgsigqueueinfo

  note : Sent → ℤ → ℤ → ℤ → World h → World h
  note Sent.queued tid sig t w = record w { trace = queued tid sig (siginfo t) ∷ w.trace }
  note called_back tid sig t w = w
  note ignored tid sig t w = w
  note assert_failed tid sig t w = w

  -- `_send_signal`, with a callback or without one; null is 0.
  unfoldable pub send_signal_to : ℤ → ℤ → ℤ → Bool → World h → Sent × World h
  unfolding note
  send_signal_to tid sig t on_esrch w =
      let (ret, w') = syscall h (queue_call tid sig) w in
      let sent = send_signal ret (not (eqb_ℤ t (pos 0)) && on_esrch) in
      (sent, note sent tid sig t w')
