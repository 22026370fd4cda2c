-- ===== src/CWrapper/Start.antt =====
-- `sysfail_start` of src/cwrapper.cc as a whole, and the life of the session that it returns: the
-- function pointers of `sysfail_session_t` call the methods of Session, and `stop` its destructor.
use sysfail.Prelude.{
  Bool, Bool-cases, inl, inr, ◌^◌, ℕ, ◌<◌, ◌≡◌, refl, true, false, not, ◌&&◌, Option, none, some,
  List, [], arith, eqb, subst, ap,
}
use sysfail.Prelude.Int.{ℤ, pos, eqb_ℤ, eqb_ℤ_iff}
use sysfail.Prelude.Dict.{Dict, lookup, nat_eq, int_eq}
use sysfail.Prelude.Lists.{elem, is_some, length}
use sysfail.Doubles.{Doubles}
use sysfail.Plan.{Result, ok, throws, Invalid, Plan, Outcome}
use sysfail.Map.{AddrRange}
use sysfail.Map.Lines.{Line}
use sysfail.Session as Session
use sysfail.Session.Invariant.{Inv, IsSettled}
use sysfail.Track.{Tracked, Round, outside}
use sysfail.Track.Rounds.{All}
use sysfail.Track.Discover.{polls, HasMonitor}
use sysfail.Open.{
  Surroundings, IsUsual, State, Opened, opened, IsClosed, open_session, open_session_ready,
}
use sysfail.Open.Requests.{Call, IsCalm, View, Implements, serve, session_of, wanted_all}
use sysfail.Session.Threads.{IsLive}
use sysfail.Session.Steady.{IsOn}
use sysfail.Open.Steady.{open_session-IsOn}
use sysfail.Open.Lifecycle.{session_lem}
use sysfail.CWrapper.{CPlan, accepts, convert, convert_strategy, start_plan}

-- A null pointer; a `std::invalid_argument` from the conversion; or how the constructor of Session
-- ends.
pub data Started : Type 0 where
  null_pointer : Started
  refused : Invalid → Started
  constructed : Opened → Started

module _ (d : Doubles) (r : Round) (x : Surroundings) where
  start_session : Option (Result (Plan d)) → State → Started × State
  start_session none st = (null_pointer, st)
  start_session (some (throws why)) st = (refused why, st)
  start_session (some (ok plan)) st =
      let (e, st') = open_session (outside plan.selector r) x plan.thd_disc st in
      (constructed e, st')

  -- `sysfail_start`, in a process that meets `r`
  unfoldable pub sysfail_start : Option (CPlan d) → State → Started × State
  unfolding start_session
  sysfail_start c st = start_session (start_plan d c) st

module _ (d : Doubles) where
  -- The plan that the constructor of Session gets, for a C plan with these outcomes.
  abbrev pub plan_of : CPlan d → Dict ℤ (Outcome d) → Plan d
  plan_of c m = record {
    outcomes = m;
    selector = accepts c.selector;
    thd_disc = convert_strategy d c;
  }

  converted :
      (c : CPlan d) (m : Dict ℤ (Outcome d))
      → convert d c.syscall_outcomes [] ≡ ok m
      → start_plan d (some c) ≡ some (ok (plan_of c m))
  unfolding start_plan
  converted c m e = rw e refl

  -- The plan asks for polling.
  abbrev pub polled : CPlan d → Bool
  polled c = eqb_ℤ c.strategy (pos 1)

  polls-convert_strategy : (c : CPlan d) → polls (convert_strategy d c) ≡ polled c
  unfolding convert_strategy
  polls-convert_strategy c = elim (Bool-cases (eqb_ℤ c.strategy (pos 0))) [
    | inl e ↦ rw (e, (eqb_ℤ_iff c.strategy (pos 0)).0 e) refl
    | inr e ↦ rw e (ground arith)
  ]

  -- What the users of the session know of it at its start.
  abbrev pub initial : CPlan d → Surroundings → View
  initial c x = record {
    injected = λ t. elem t x.listing && (accepts c.selector t && not (polled c && eqb x.poller t));
    met = λ t. elem t x.listing;
  }

  opened-Implements :
      (c : CPlan d) (x : Surroundings) (o : Session.Outside) (a : Tracked)
      → o.selector ≡ accepts c.selector
      → Inv o a.process
      → a.process.session ≡ true
      → HasMonitor (polls (convert_strategy d c)) 0 (λ t. elem t x.listing) a
      → ((t : ℕ)
          → is_some (lookup t a.process.thd_st) ≡ (
              elem t x.listing
              && (o.selector t && not (polls (convert_strategy d c) && eqb x.poller t))))
      → Implements (polled c) 0 o a (initial c x)
  opened-Implements c x o a same v e h k = record {
    inv = v;
    open_session = e;
    entries = λ t. ground (arith, k t, polls-convert_strategy c, ap (λ f. f t) same);
    gen = 0;
    raised = omega arith;
    idle = λ p. refl;
    monitor = subst (λ p. HasMonitor p 0 (λ t. elem t x.listing) a) (polls-convert_strategy c) h;
  }

  -- With the outcomes of the plan converted, `sysfail_start` returns an open session.
  pub started-Implements :
      (c : CPlan d) (m : Dict ℤ (Outcome d)) (r : Round) (x : Surroundings) (ls : List Line)
      (text : AddrRange) (st : State)
      → convert d c.syscall_outcomes [] ≡ ok m
      → IsUsual x ls text
      → ((t : ℕ) → IsSettled (outside (accepts c.selector) r) t)
      → IsClosed st
      → (st' : State) × (sysfail_start d r x (some c) st ≡ (constructed (opened text), st'))
        × Implements (polled c) 0 (outside (accepts c.selector) r) st'.tracked (initial c x)
  unfolding sysfail_start
  started-Implements c m r x ls text st ec u cr z =
      let o = outside (accepts c.selector) r in
      let (st', q, _, v, e, h, k) =
        open_session_ready o x (convert_strategy d c) ls text st u.content u.written u.apart u.one
          u.room u.sigsys_taken u.enable_taken u.disable_taken u.rearm_taken u.exists cr
          u.poller_listed z in
      (st', rw (converted c m ec, q) refl, opened-Implements c x o st'.tracked refl v e h k)

  -- Then the kernel's dispatch is on in each thread that has an entry and gets its signals.
  pub started-IsOn :
      (c : CPlan d) (m : Dict ℤ (Outcome d)) (r : Round) (x : Surroundings) (tid : ℕ) (st : State)
      → convert d c.syscall_outcomes [] ≡ ok m
      → x.exists ≡ true
      → ((t : ℕ) → IsSettled (outside (accepts c.selector) r) t)
      → IsLive (outside (accepts c.selector) r) tid
      → IsClosed st
      → IsOn tid (sysfail_start d r x (some c) st).1.tracked.process
  unfolding sysfail_start
  started-IsOn c m r x tid st ec ex cr live z = rw (converted c m ec) (
      open_session-IsOn (outside (accepts c.selector) r) x (convert_strategy d c) tid live cr ex st
        z)

  -- Let the outcomes of a C plan convert, and let the process be as the constructor of Session needs
  -- it: the maps file as the kernel writes it, with one own range; the four signals taken; a task
  -- directory, whose listing has the poller; each thread with its signals or gone. Then
  -- `sysfail_start` returns a session. Take any requests made of it, and rounds of the poller between
  -- them if the plan asks for one, fewer than 2^32, each at a time when every thread gets its signals
  -- or is gone and a thread that calls for itself gets them: no call blocks or throws, and exactly
  -- the threads that the plan, the requests and the rounds ask for are subject to failure injection
  -- at the end of them. And `stop`, with no round of the poller inside the destructor, returns, with
  -- no entry, no session, no monitor, and no thread whose syscalls the kernel dispatches.
  pub sysfail_start-stop :
      (c : CPlan d) (m : Dict ℤ (Outcome d)) (r last : Round) (x : Surroundings) (ls : List Line)
      (text : AddrRange) (qs : List Call) (st : State)
      → convert d c.syscall_outcomes [] ≡ ok m
      → IsUsual x ls text
      → ((t : ℕ) → IsSettled (outside (accepts c.selector) r) t)
      → All (IsCalm (accepts c.selector)) qs
      → ((t : ℕ) → IsSettled (outside (accepts c.selector) last) t)
      → length qs < 2 ^ 32
      → IsClosed st
      → (st' : State) × (a1 : Tracked) × (a2 : Tracked) × (sysfail_start d r x (some c) st
          ≡ (constructed (opened text), st'))
        × (serve (accepts c.selector) qs st'.tracked ≡ (Session.ok tt, a1))
        × ((t : ℕ)
            → is_some (lookup t a1.process.thd_st)
              ≡ (wanted_all (accepts c.selector) (polled c) qs (initial c x)).injected t)
        × (session_of (accepts c.selector) qs last st'.tracked ≡ (Session.ok tt, a2))
        × (a2.process.thd_st ≡ [])
        × (a2.process.session ≡ false)
        × (a2.tmon ≡ none)
        × ((t : ℕ) → a2.process.sud t ≡ false)
  sysfail_start-stop c m r last x ls text qs st ec u cr cq cl few z =
      let (st', q, i) = started-Implements c m r x ls text st ec u cr z in
      let (a1, a2, served, injected, closed, empty, ended, unmonitored, off) =
        session_lem (polled c) (accepts c.selector) r last qs st'.tracked (initial c x) cq cl few
          i in
      (st', a1, a2, q, served, injected, closed, empty, ended, unmonitored, off)
