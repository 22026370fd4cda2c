-- ===== src/Open/Steady.antt =====
-- Requests to an open session, and the rounds of its poller, keep the kernel's dispatch on in a thread
-- that has an entry and gets its signals throughout.
use sysfail.Prelude.{
  ℕ, ◌+◌, ◌^◌, ◌<◌, ◌≡◌, refl, Bool, true, false, Option, none, some, List, [], ◌∷◌, subst, sym, ap,
  arith,
}
use sysfail.Prelude.Lists.{length, is_some}
use sysfail.Session.{Outside, Process}
use sysfail.Session.Threads.{IsLive}
use sysfail.Session.Own.{self-remote}
use sysfail.Session.Steady.{IsOn, thd_enable-IsOn, thd_disable-IsOn}
use sysfail.Track.{Tracked, Round, outside, reap}
use sysfail.Track.Rounds.{All}
use sysfail.Track.Steady.{discover_threads-IsOn, poll_session-IsOn, initialize-IsOn}
use sysfail.Open.Requests.{
  Request, add_this_thread, remove_this_thread, add_thread, remove_thread, discover, poller_round,
  request, Call, reaped, serve, IsCalm, View, wanted, Implements,
}
use sysfail.Plan.{Strategy}
use sysfail.Signal.Table.{Installed, installed, thrown, install}
use sysfail.Map.{AddrRange, MapRead, unopened, unformatted, mapped, get_mmap, self_text}
use sysfail.Prelude.Dict.{lookup, nat_eq}
use sysfail.Session.Invariant.{IsSettled}
use sysfail.Track.Start.{IsFresh, IsFresh-Inv}
use sysfail.Open.{
  Surroundings, State, IsClosed, open_session, found_map, found_text, activate, publish,
}
use sysfail.Open.Lifecycle.{reaped-Implements, request-Implements}

module _ (selector : ℕ → Bool) (tid : ℕ) where
  -- The thread gets its signals at the time of the call.
  abbrev pub IsThere : Call → Type 0
  IsThere c = IsLive (outside selector c.0) tid

  reap-IsOn : (o : Outside) (s : Process) → IsLive o tid → IsOn tid s → IsOn tid (reap o s)
  reap-IsOn o s live on h = rw live.reached (ground (arith, on h))

  request-IsOn :
      (p : Bool) (n : ℕ) (r : Round) (q : Request) (a : Tracked) (v : View)
      → IsCalm selector (r, q)
      → IsThere (r, q)
      → Implements p n (outside selector r) a v
      → IsOn tid a.process
      → IsOn tid (request (outside selector r) r.listing q a).1.process
  unfolding request
  request-IsOn p n r (add_this_thread t) a v c live i on =
      subst (λ x. IsOn tid x.1)
        (sym (self-remote (outside selector r) t a.process c.1 i.open_session i.inv).0)
        (thd_enable-IsOn (outside selector r) tid live t a.process (c.0 t) i.open_session i.inv on)
  request-IsOn p n r (remove_this_thread t) a v c live i on =
      subst (λ x. IsOn tid x.1)
        (sym (self-remote (outside selector r) t a.process c.1 i.open_session i.inv).1)
        (thd_disable-IsOn (outside selector r) tid live t a.process (c.0 t) i.open_session i.inv on)
  request-IsOn p n r (add_thread t) a v c live i on =
      thd_enable-IsOn (outside selector r) tid live t a.process (c.0 t) i.open_session i.inv on
  request-IsOn p n r (remove_thread t) a v c live i on =
      thd_disable-IsOn (outside selector r) tid live t a.process (c.0 t) i.open_session i.inv on
  request-IsOn p n r discover a v c live i on =
      discover_threads-IsOn (outside selector r) tid live c.0 r.listing a i.open_session i.inv on
  request-IsOn p n r poller_round a v c live i on =
      poll_session-IsOn (outside selector r) tid live c.0 r.listing a i.open_session i.inv on

  pub serve-IsOn :
      (p : Bool) (n : ℕ) (r : Round) (qs : List Call) (a : Tracked) (v : View)
      → All (IsCalm selector) qs
      → All IsThere qs
      → n + length qs < 2 ^ 32
      → Implements p n (outside selector r) a v
      → IsOn tid a.process
      → IsOn tid (serve selector qs a).1.process
  unfolding serve
  serve-IsOn p n r [] a v c there lt i on = on
  serve-IsOn p n r ((r1, q) ∷ qs) a v c there lt i on =
      let i0 = reaped-Implements p selector n (outside selector r) r1 a v refl i in
      let (a1, e1, i1) =
        request-Implements selector p n r1 q (reaped selector r1 a) v c.0 (omega arith) i0 in
      let on1 =
        subst (λ x. IsOn tid x.1.process) e1
          (request-IsOn p n r1 q (reaped selector r1 a) v c.0 there.0 i0
            (reap-IsOn (outside selector r1) a.process there.0 on)) in
      rw e1 (
        serve-IsOn p (n + 1) r1 qs a1 (wanted selector p r1.listing q v) c.1 there.1 (omega arith)
          i1 on1)

module _ (o : Outside) (x : Surroundings) (strategy : Strategy) (tid : ℕ) (live : IsLive o tid)
    (c : (t : ℕ) → IsSettled o t) (exists : x.exists ≡ true) where
  empty-IsOn : (s : Process) → s.thd_st ≡ [] → IsOn tid s
  unfolding lookup
  empty-IsOn s e h = cc (ap (λ m. is_some (lookup tid m)) e)

  activate-IsOn :
      (text : AddrRange) (i : Installed) (a : Tracked)
      → a.process.thd_st ≡ []
      → ((t : ℕ) → a.process.sud t ≡ false)
      → IsOn tid (activate o x strategy text i a).1.tracked.process
  unfolding activate publish
  activate-IsOn text (thrown t) a empty off = empty-IsOn a.process empty
  activate-IsOn text (installed t) a empty off =
      let s = record a.process { thd_st = []; session = true } in
      let f : IsFresh s = record { empty = refl; off = off; open_session = refl } in
      rw exists (
        initialize-IsOn o tid live c strategy x.poller x.listing s refl (IsFresh-Inv o f)
          (empty-IsOn s refl))

  found_text-IsOn :
      (text : Option AddrRange) (st : State)
      → IsClosed st
      → IsOn tid (found_text o x strategy text st).1.tracked.process
  unfolding found_text
  found_text-IsOn none st z = empty-IsOn st.tracked.process z.empty
  found_text-IsOn (some text) st z =
      activate-IsOn text (install x.accepts x.sigrtmin st.signals) st.tracked z.empty z.off

  found_map-IsOn :
      (r : MapRead) (st : State)
      → IsClosed st
      → IsOn tid (found_map o x strategy r st).1.tracked.process
  unfolding found_map
  found_map-IsOn unopened st z = empty-IsOn st.tracked.process z.empty
  found_map-IsOn unformatted st z = empty-IsOn st.tracked.process z.empty
  found_map-IsOn (mapped m) st z = found_text-IsOn (self_text m) st z

  -- However the constructor of Session ends.
  pub open_session-IsOn :
      (st : State) → IsClosed st → IsOn tid (open_session o x strategy st).1.tracked.process
  unfolding open_session
  open_session-IsOn st z = found_map-IsOn (get_mmap x.content) st z
