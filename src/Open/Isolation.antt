-- ===== src/Open/Isolation.antt =====
-- What the life of a session means for the syscalls of the threads.
use sysfail.Prelude.{
  ℕ, ◌^◌, ◌<◌, ◌≡◌, Bool, true, false, some, List, arith, ap, sym, ◌∙◌, subst, Bool-cases,
}
use sysfail.Prelude.Int.{ℤ}
use sysfail.Prelude.Dict.{lookup, nat_eq}
use sysfail.Prelude.Lists.{is_some-some, length}
use sysfail.Doubles.{Doubles}
use sysfail.Host.{Host, World}
use sysfail.Regs.{Gregs, reg_rax}
use sysfail.Plan.{ActivePlan}
use sysfail.Map.{AddrRange}
use sysfail.Session.{Result, ok}
use sysfail.Session.Invariant.{IsSettled}
use sysfail.Inject.{fail_maybe}
use sysfail.Dispatch.{with_process}
use sysfail.Dispatch.Routes.{IsExempt}
use sysfail.Dispatch.Kernel.{
  UserDispatch, IsOutside, untouched, syscall_of, syscall_of_off, syscall_of_on,
}
use sysfail.Track.{Tracked, Round, outside}
use sysfail.Track.Rounds.{All}
use sysfail.Open.Requests.{Call, IsCalm, View, wanted_all, Implements, serve, session_of}
use sysfail.Session.Steady.{IsOn}
use sysfail.Open.Steady.{IsThere, serve-IsOn}
use sysfail.Open.Lifecycle.{serve-Implements, session_lem}

-- A run that returns in one way and in another ends in one state.
same_end :
    {x : Result (Unit {0}) × Tracked} {a b : Tracked} → x ≡ (ok tt, a) → x ≡ (ok tt, b) → a ≡ b
same_end p q = ap (λ y. y.1) (sym p ∙ q)

module _ {d : Doubles} (h : Host d) (u : UserDispatch) (text : AddrRange) (sigsys_in : ℤ → ℤ)
    (plan : ActivePlan d) (p : Bool) (selector : ℕ → Bool) (r : Round) (qs : List Call)
    (a : Tracked) (v : View) (c : All (IsCalm selector) qs) (few : length qs < 2 ^ 32)
    (i : Implements p 0 (outside selector r) a v) where
  served :
      (a1 : Tracked)
      → serve selector qs a ≡ (ok tt, a1)
      → (r' : Round) × (n' : ℕ) × Implements p n'
          (outside selector r')
          a1
          (wanted_all selector p qs v)
  served a1 e =
      let (a', r', n', e', i') = serve-Implements p selector 0 r qs a v c (omega arith) i in
      (
        r',
        n',
        subst (λ x. Implements p n' (outside selector r') x (wanted_all selector p qs v))
            (same_end e' e) i',
      )

  -- Let requests be made of an open session, with rounds of its poller between them, fewer than 2^32,
  -- each when every thread gets its signals or is gone and a thread that calls for itself gets them.
  -- Then a thread that they do not want to be injected makes every syscall as if sysfail were not
  -- there.
  pub uninjected_untouched :
      (a1 : Tracked) (tid ip : ℕ) (regs : Gregs) (w : World h)
      → serve selector qs a ≡ (ok tt, a1)
      → (wanted_all selector p qs v).injected tid ≡ false
      → syscall_of h u text sigsys_in plan tid ip regs w a1.process
        ≡ with_process h a1.process (some (untouched h u text sigsys_in plan regs w))
  uninjected_untouched a1 tid ip regs w e out =
      let (r', n', i') = served a1 e in
      syscall_of_off h u text sigsys_in plan tid ip regs w a1.process
        (ground (arith, i'.inv.backed tid, i'.entries tid, out, Bool-cases (a1.process.sud tid)))

  -- A thread whose dispatch the kernel then has on makes each syscall by the plan, if it is not one of the
  -- three that the handler treats itself and the instruction is not in the session's own text; and the requests and rounds wanted that.
  dispatched_injected :
      (a1 : Tracked) (tid ip : ℕ) (regs : Gregs) (w : World h)
      → serve selector qs a ≡ (ok tt, a1)
      → a1.process.sud tid ≡ true
      → IsOutside text ip
      → ¬ IsExempt (regs reg_rax)
      → (syscall_of h u text sigsys_in plan tid ip regs w a1.process
          ≡ with_process h a1.process (fail_maybe h plan regs w))
        × ((wanted_all selector p qs v).injected tid ≡ true)
  dispatched_injected a1 tid ip regs w e on out ordinary =
      let (r', n', i') = served a1 e in
      let entry = i'.inv.backed tid on in
      let (st, found) = is_some-some (lookup tid a1.process.thd_st) entry in
      (
        syscall_of_on h u text sigsys_in plan tid ip regs w a1.process st on found
            (i'.inv.armed tid st on found) i'.open_session out ordinary,
        sym (i'.entries tid) ∙ entry,
      )

  -- Let requests be made of an open session, with rounds of its poller between them, fewer than 2^32,
  -- each when every thread gets its signals or is gone and a thread that calls for itself gets them.
  -- Then a thread that they want to be injected, and that gets its signals throughout, makes each
  -- syscall by the plan, if it is not one of the three that the handler treats itself and the
  -- instruction is not in the session's own text. Before them the kernel's dispatch is on in the
  -- thread if it has an entry.
  pub wanted_injected :
      (a1 : Tracked) (tid ip : ℕ) (regs : Gregs) (w : World h)
      → IsOn tid a.process
      → All (IsThere selector tid) qs
      → serve selector qs a ≡ (ok tt, a1)
      → (wanted_all selector p qs v).injected tid ≡ true
      → IsOutside text ip
      → ¬ IsExempt (regs reg_rax)
      → syscall_of h u text sigsys_in plan tid ip regs w a1.process
        ≡ with_process h a1.process (fail_maybe h plan regs w)
  wanted_injected a1 tid ip regs w on there e want out ordinary =
      let (r', n', i') = served a1 e in
      let on1 =
        subst (λ x. IsOn tid x.1.process) e
          (serve-IsOn selector tid p 0 r qs a v c there (omega arith) i on) in
      (dispatched_injected a1 tid ip regs w e (on1 (i'.entries tid ∙ want)) out ordinary).0

  -- Let requests be made of an open session, with rounds of its poller between them, fewer than 2^32,
  -- each when every thread gets its signals or is gone and a thread that calls for itself gets them.
  -- After these and the destructor, which runs at such a time too, every thread makes every syscall as
  -- if sysfail were not there.
  pub stopped_untouched :
      (last : Round) (a2 : Tracked) (tid ip : ℕ) (regs : Gregs) (w : World h)
      → ((t : ℕ) → IsSettled (outside selector last) t)
      → session_of selector qs last a ≡ (ok tt, a2)
      → syscall_of h u text sigsys_in plan tid ip regs w a2.process
        ≡ with_process h a2.process (some (untouched h u text sigsys_in plan regs w))
  stopped_untouched last a2 tid ip regs w cl e =
      let (a1, a', _, _, e', _, _, _, off) = session_lem p selector r last qs a v c cl few i in
      syscall_of_off h u text sigsys_in plan tid ip regs w a2.process
        (ap (λ x. x.process.sud tid) (sym (same_end e' e)) ∙ off tid)
