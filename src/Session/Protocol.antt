-- ===== src/Session/Protocol.antt =====
-- The protocol between a caller and the handler in another thread, as far as the caller sees it.
use mathlib.Core.Option
use sysfail.Prelude.{ℕ, ◌≡◌, refl, some}
use sysfail.Prelude.Dict.{Dict, lookup, modify, lookup-modify, modify-modify, beq_refl, nat_eq}
use sysfail.Session.{
  ThdState, Process, Outside, Action, ok, err, Error, acquire, release, signal, coordinate,
}

-- The entry of `tid` with another count.
abbrev pub with_count : ℕ → ℕ → Process → Process
with_count n tid s = record s { thd_st = modify tid (λ st. record st { sig_coord = n }) s.thd_st }

-- The thread has an entry, and its semaphore is at 1.
pub record IsReady (tid : ℕ) (s : Process) : Type 0 where
  pub entry : ThdState
  pub found : lookup tid s.thd_st ≡ some entry
  pub at_one : entry.sig_coord ≡ 1

acquire_ready :
    (tid : ℕ) (s : Process) → IsReady tid s → acquire tid s ≡ (ok tt, with_count 0 tid s)
unfolding acquire
acquire_ready tid s r = rw (r.found, r.at_one) refl

pub lookup-modify_self :
    (tid : ℕ) (f : ThdState → ThdState) (m : Dict ℕ ThdState)
    → lookup tid (modify tid f m) ≡ Option.map f (lookup tid m)
lookup-modify_self tid f m = rw (lookup-modify tid tid f m, beq_refl tid) refl

release_low :
    (tid : ℕ) (s : Process) → (release tid (with_count 0 tid s)) ≡ (ok tt, with_count 1 tid s)
unfolding release
release_low tid s = rw modify-modify refl

module _ (o : Outside) where
  -- The caller gets past both semaphores if the handler, or the callback, leaves the count at 1.
  pub coordinate_ok :
      (tid : ℕ) (handler : Action (Unit {0})) (s t : Process)
      → IsReady tid s
      → signal o tid handler (with_count 0 tid s) ≡ (ok tt, t)
      → IsReady tid t
      → coordinate o tid handler s ≡ (ok tt, with_count 1 tid t)
  unfolding coordinate
  coordinate_ok tid handler s t r e q =
      rw (acquire_ready tid s r, e, acquire_ready tid t q) (release_low tid t)

  coordinate_err :
      (tid : ℕ) (handler : Action (Unit {0})) (s t : Process) (x : Error)
      → IsReady tid s
      → signal o tid handler (with_count 0 tid s) ≡ (err x, t)
      → coordinate o tid handler s ≡ (err x, t)
  unfolding coordinate
  coordinate_err tid handler s t x r e = rw (acquire_ready tid s r, e) refl
