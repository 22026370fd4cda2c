-- ===== src/CWrapper/Fails.antt =====
-- From the C plan of src/cwrapper.cc to what the thread of a session sees: a node that asks for every
-- call to fail.
use sysfail.Prelude.{
  ℕ, ◌^◌, ◌<◌, ◌≡◌, refl, true, false, ◌||◌, some, List, [], ◌∷◌, arith, ap, sym, ◌∙◌, subst, inr,
}
use sysfail.Prelude.Int.{ℤ, pos, negsuc, to_int, less, eqb_ℤ}
use sysfail.Prelude.Dict.{Dict, lookup, int_eq}
use sysfail.Prelude.Lists.{elem, length}
use sysfail.Doubles.{Doubles, truthy}
use sysfail.Host.{Host, World}
use sysfail.Regs.{Gregs, reg_rax}
use sysfail.Plan.{ok, Outcome, Probability, probability, active_plan, active_outcome, is_eligible}
use sysfail.Plan.Choice.{reaches}
use sysfail.Inject.{fail_maybe, int_min}
use sysfail.Inject.Parts.{codes}
use sysfail.Inject.Effect.{LeftOut}
use sysfail.Inject.Certain.{fail_maybe_before}
use sysfail.Session as Session
use sysfail.Session.Invariant.{IsSettled}
use sysfail.Map.{AddrRange}
use sysfail.Map.Lines.{Line}
use sysfail.Track.{Tracked, Round, outside}
use sysfail.Track.Rounds.{All}
use sysfail.Dispatch.{with_process}
use sysfail.Dispatch.Routes.{IsExempt}
use sysfail.Dispatch.Kernel.{UserDispatch, IsOutside, syscall_of}
use sysfail.Open.{Surroundings, IsUsual, State, opened, IsClosed}
use sysfail.Open.Requests.{Call, IsCalm, Implements, serve, wanted_all}
use sysfail.Open.Isolation.{wanted_injected}
use sysfail.Open.Steady.{IsThere}
use sysfail.Session.Steady.{IsOn}
use sysfail.Session.Threads.{IsLive}
use sysfail.CWrapper.Start.{
  plan_of, constructed, sysfail_start, polled, initial, started-Implements, started-IsOn,
}
use sysfail.CWrapper.{
  CNode, CPlan, accepts, insert_weight, weights, convert_outcome, convert, sysfail_syscall,
}
use sysfail.CWrapper.Convert.{first_node, Holds, convert_first, >>=-returns}

less_trichotomy : (a b : ℤ) → less a b ≡ false → less b a ≡ false → a ≡ b
less_trichotomy (pos a) (pos b) h k = ap pos (ground arith)
less_trichotomy (pos a) (negsuc b) h k = cc
less_trichotomy (negsuc a) (pos b) h k = cc
less_trichotomy (negsuc a) (negsuc b) h k = ap negsuc (ground arith)

module _ (d : Doubles) where
  probability-returns :
      (p b : d.Num) (x : Probability d)
      → probability d p b ≡ ok x
      → x ≡ record { p = p; after_bias = b }
  unfolding probability
  probability-returns p b x e = ground arith

  -- The errors of the map are those of the array.
  elem-insert_weight :
      (e f : ℤ) (w : d.Num) (m : List (ℤ × d.Num))
      → elem e (codes (insert_weight d f w m)) ≡ (eqb_ℤ f e || elem e (codes m))
  unfolding insert_weight elem
  elem-insert_weight e f w [] = refl
  elem-insert_weight e f w ((g, v) ∷ m) =
      ground (arith, elem-insert_weight e f w m, less_trichotomy f g)

  convert_outcome-parts :
      (o : CNode d) (y : Outcome d)
      → convert_outcome d o ≡ ok y
      → (delay : Probability d) × (y ≡ record {
        fail = record { p = o.fail_p; after_bias = o.fail_bias };
        delay = delay;
        max_delay = pos o.max_delay_usec;
        error_weights = weights d o.error_wts [];
        eligible = some (accepts o.eligible);
      })
  unfolding convert_outcome
  convert_outcome-parts o y e =
      let (fail, rest, f) = >>=-returns d _ (probability d o.fail_p o.fail_bias) e in
      let (delay, last, g) = >>=-returns d _ (probability d o.delay_p o.delay_bias) rest in
      let same : ok (record {
        fail = fail;
        delay = delay;
        max_delay = pos o.max_delay_usec;
        error_weights = weights d o.error_wts [];
        eligible = some (accepts o.eligible);
      })
          ≡ ok y =
        last in
      (delay, rw (sym (probability-returns o.fail_p o.fail_bias fail f)) cc)

  elem-weights :
      (e : ℤ) (ws m : List (ℤ × d.Num))
      → elem e (codes (weights d ws m)) ≡ (elem e (codes ws) || elem e (codes m))
  unfolding weights elem
  elem-weights e [] m = refl
  elem-weights e ((f, w) ∷ ws) m =
      ground (arith, elem-weights e ws (insert_weight d f w m), elem-insert_weight e f w m)

  -- What the plan has for the syscall that the first node names.
  planned_node :
      (c : CPlan d) (m : Dict ℤ (Outcome d)) (call : ℤ) (o : CNode d)
      → convert d c.syscall_outcomes [] ≡ ok m
      → first_node d call c.syscall_outcomes ≡ some o
      → (y : Outcome d) × (convert_outcome d o ≡ ok y) × (lookup call m ≡ some y)
  planned_node c m call o e first =
      subst (λ x. Holds d x (lookup call m)) first (convert_first d call c.syscall_outcomes m e)

module _ {d : Doubles} (h : Host d) where
  -- The errors of the map are those that the node lists.
  listed :
      (ws : List (ℤ × d.Num)) (w : World h) (regs' : Gregs) (w' : World h)
      → LeftOut h (codes (weights d ws [])) w regs' w'
      → LeftOut h (codes ws) w regs' w'
  unfolding elem
  listed ws w regs' w' l = record {
    never = l.never;
    kernel = l.kernel;
    answer = (l.answer.0, ground (arith, elem-weights d l.answer.0 ws [], l.answer.1), l.answer.2);
  }

  node_fails :
      (c : CPlan d) (m : Dict ℤ (Outcome d)) (o : CNode d) (regs : Gregs) (w : World h)
      → convert d c.syscall_outcomes [] ≡ ok m
      → first_node d (sysfail_syscall regs) c.syscall_outcomes ≡ some o
      → accepts o.eligible regs ≡ true
      → o.max_delay_usec < 2 ^ 31
      → d.less o.fail_p d.unity ≡ false
      → truthy d o.fail_bias ≡ false
      → reaches d d.unity d.nought (weights d o.error_wts []) ≡ true
      → elem int_min (codes o.error_wts) ≡ false
      → (r : Gregs × World h) × (fail_maybe h (active_plan d (plan_of d c m)) regs w ≡ some r)
        × LeftOut h (codes (weights d o.error_wts [])) w r.0 r.1
  unfolding sysfail_syscall is_eligible active_outcome to_int elem
  node_fails c m o regs w e first el fits certain before full negatable =
      let (y, q, found) = planned_node d c m (sysfail_syscall regs) o e first in
      let (delay, parts) = convert_outcome-parts d o y q in
      let found' = subst (λ z. lookup (sysfail_syscall regs) m ≡ some z) parts found in
      fail_maybe_before h (plan_of d c m) regs w _ record { planned = found'; accepted = el }
        (inr (ground arith)) certain before full
        (ground (arith, elem-weights d int_min o.error_wts [], negatable))

  -- Let `sysfail_start` return a session for a C plan whose outcomes convert, in a process as the
  -- constructor of Session needs it, and let any requests be made of the session, with rounds of the
  -- poller between them if the plan asks for one, fewer than 2^32, each when every thread gets its
  -- signals or is gone and a thread that calls for itself gets them. Let a thread that gets its
  -- signals throughout, and that the plan, the requests and the rounds want to be injected, make a
  -- syscall outside the session's own text that is not one of the three that the handler treats
  -- itself, and let the first node of the plan that names the syscall accept it, with a failure
  -- probability of 1, no bias to after the syscall, a maximal delay that an int holds, weights that
  -- come to 1, and no error that is the least int, whose minus is undefined. Then the syscall is never
  -- executed, and the thread gets one of the errors that the node lists.
  pub sysfail_start-fails :
      (u : UserDispatch) (sigsys_in : ℤ → ℤ) (c : CPlan d) (m : Dict ℤ (Outcome d)) (o : CNode d)
      (r : Round) (x : Surroundings) (ls : List Line) (text : AddrRange) (qs : List Call)
      (st st' : State) (a1 : Tracked) (tid ip : ℕ) (regs : Gregs) (w : World h)
      → convert d c.syscall_outcomes [] ≡ ok m
      → IsUsual x ls text
      → ((t : ℕ) → IsSettled (outside (accepts c.selector) r) t)
      → IsClosed st
      → sysfail_start d r x (some c) st ≡ (constructed (opened text), st')
      → All (IsCalm (accepts c.selector)) qs
      → length qs < 2 ^ 32
      → serve (accepts c.selector) qs st'.tracked ≡ (Session.ok tt, a1)
      → IsLive (outside (accepts c.selector) r) tid
      → All (IsThere (accepts c.selector) tid) qs
      → (wanted_all (accepts c.selector) (polled d c) qs (initial d c x)).injected tid ≡ true
      → IsOutside text ip
      → ¬ IsExempt (regs reg_rax)
      → first_node d (sysfail_syscall regs) c.syscall_outcomes ≡ some o
      → accepts o.eligible regs ≡ true
      → o.max_delay_usec < 2 ^ 31
      → d.less o.fail_p d.unity ≡ false
      → truthy d o.fail_bias ≡ false
      → reaches d d.unity d.nought (weights d o.error_wts []) ≡ true
      → elem int_min (codes o.error_wts) ≡ false
      → (regs' : Gregs) × (w' : World h) × (syscall_of h u text sigsys_in
            (active_plan d (plan_of d c m))
            tid
            ip
            regs
            w
            a1.process
          ≡ some (regs', w', a1.process))
        × LeftOut h (codes o.error_wts) w regs' w'
  sysfail_start-fails u sigsys_in c m o r x ls text qs st st' a1 tid ip regs w e usual cr z q calm
        few served live there want out ordinary first el fits certain before full negatable =
      let (s', q', i) = started-Implements d c m r x ls text st e usual cr z in
      let i' =
        subst
          (λ y.
            Implements (polled d c) 0 (outside (accepts c.selector) r) y.tracked (initial d c x))
          (ap (λ y. y.1) (sym q' ∙ q)) i in
      let on =
        subst (λ y. IsOn tid y.1.tracked.process) q
          (started-IsOn d c m r x tid st e usual.exists cr live z) in
      let injected =
        wanted_injected h u text sigsys_in (active_plan d (plan_of d c m)) (polled d c)
          (accepts c.selector) r qs st'.tracked (initial d c x) calm few i' a1 tid ip regs w on
          there served want out ordinary in
      let ((regs', w'), fails, left) =
        node_fails c m o regs w e first el fits certain before full negatable in
      (
        regs',
        w',
        injected ∙ ap (with_process h a1.process) fails,
        listed o.error_wts w regs' w' left,
      )
