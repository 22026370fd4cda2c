-- ===== src/Open/Lifecycle.antt =====
-- Sequences of requests to an open session, with rounds of its poller between them, and the destructor
-- after them.
use sysfail.Prelude.{
  ℕ, ◌+◌, ◌^◌, ◌<◌, ◌≡◌, refl, Bool, true, false, none, List, [], ◌∷◌, ◌∙◌, arith,
}
use sysfail.Prelude.Dict.{lookup, nat_eq}
use sysfail.Prelude.Lists.{is_some, length}
use sysfail.Session.{Outside, ok, thd_enable, thd_disable, thd_enable_self, thd_disable_self}
use sysfail.Session.Invariant.{IsSettled}
use sysfail.Session.Own.{self-remote}
use sysfail.Session.Teardown.{close_clean}
use sysfail.Track.{Tracked, Round, outside, reap}
use sysfail.Track.Rounds.{All, reap-Inv}
use sysfail.Open.Requests.{
  Request, add_this_thread, remove_this_thread, add_thread, remove_thread, discover, poller_round,
  request, stop_session, Call, reaped, serve, session_of, IsCalm, View, wanted, wanted_all,
  Implements,
}
use sysfail.Open.Refines.{
  same_monitor, same_call, add_steps, remove_steps, no_round, discover_gathers, watch_follows,
}

module _ (p : Bool) (selector : ℕ → Bool) where
  -- Before the call, the kernel's dispatch of the threads that have ended is gone with them.
  pub reaped-Implements :
      (n : ℕ) (o : Outside) (r : Round) (a : Tracked) (v : View)
      → o.selector ≡ selector
      → Implements p n o a v
      → Implements p n (outside selector r) (reaped selector r a) v
  reaped-Implements n o r a v same i = record {
    inv = reap-Inv o (outside selector r) a.process same i.inv;
    open_session = i.open_session;
    entries = i.entries;
    gen = i.gen;
    raised = i.raised;
    idle = i.idle;
    monitor = same_monitor (reap (outside selector r) a.process) v.met i.monitor (λ t. refl);
  }

module _ (selector : ℕ → Bool) where
  -- A request that a calm process makes of an open session returns, and does to the session what it
  -- is for.
  pub request-Implements :
      (p : Bool) (n : ℕ) (r : Round) (q : Request) (a : Tracked) (v : View)
      → IsCalm selector (r, q)
      → n + 1 < 2 ^ 32
      → Implements p n (outside selector r) a v
      → (a' : Tracked) × (request (outside selector r) r.listing q a ≡ (ok tt, a'))
        × Implements p (n + 1) (outside selector r) a' (wanted selector p r.listing q v)
  unfolding request wanted
  request-Implements p n r (add_this_thread tid) a v c lt i =
      let o = outside selector r in
      let (a', q, i') = add_steps p n o a v i c.0 tid in
      (
        a',
        same_call (thd_enable_self o tid) (thd_enable o tid) a
              (self-remote o tid a.process c.1 i.open_session i.inv).0
            ∙ q,
        i',
      )
  request-Implements p n r (remove_this_thread tid) a v c lt i =
      let o = outside selector r in
      let (a', q, i') = remove_steps p n o a v i c.0 tid in
      (
        a',
        same_call (thd_disable_self o tid) (thd_disable o tid) a
              (self-remote o tid a.process c.1 i.open_session i.inv).1
            ∙ q,
        i',
      )
  request-Implements p n r (add_thread tid) a v c lt i =
      add_steps p n (outside selector r) a v i c.0 tid
  request-Implements p n r (remove_thread tid) a v c lt i =
      remove_steps p n (outside selector r) a v i c.0 tid
  request-Implements true n r discover a v c lt i =
      let (a', q, _, i') = watch_follows n (outside selector r) a v c.0 r.listing lt i in
      (a', q, i')
  request-Implements false n r discover a v c lt i =
      discover_gathers n (outside selector r) a v c.0 r.listing i
  request-Implements true n r poller_round a v c lt i =
      let (a', _, q, i') = watch_follows n (outside selector r) a v c.0 r.listing lt i in
      (a', q, i')
  request-Implements false n r poller_round a v c lt i =
      let (q, i') = no_round n (outside selector r) a v r.listing i in (a, q, i')

module _ (p : Bool) (selector : ℕ → Bool) where
  pub serve-Implements :
      (n : ℕ) (r : Round) (qs : List Call) (a : Tracked) (v : View)
      → All (IsCalm selector) qs
      → n + length qs < 2 ^ 32
      → Implements p n (outside selector r) a v
      → (a' : Tracked) × (r' : Round) × (n' : ℕ) × (serve selector qs a ≡ (ok tt, a'))
        × Implements p n' (outside selector r') a' (wanted_all selector p qs v)
  unfolding serve wanted_all
  serve-Implements n r [] a v c lt i = (a, r, n, refl, i)
  serve-Implements n r ((r1, q) ∷ qs) a v c lt i =
      let (a1, e1, i1) =
        request-Implements selector p n r1 q (reaped selector r1 a) v c.0 (omega arith)
          (reaped-Implements p selector n (outside selector r) r1 a v refl i) in
      let (a2, r2, n2, e2, i2) =
        serve-Implements (n + 1) r1 qs a1 (wanted selector p r1.listing q v) c.1 (omega arith) i1 in
      (a2, r2, n2, rw e1 e2, i2)

  -- Users of a session that implements its view, with a monitor in its first generation and with or
  -- without a poller, make any requests, and the poller makes
  -- rounds between them, each at a time when every thread gets its signals or is gone, and a thread
  -- that calls for itself gets them; then the session is stopped. There are fewer of these than
  -- generations, and none of the poller's rounds is inside the destructor. No call blocks or throws.
  -- When the requests are done, exactly the threads that they and the rounds asked for have entries
  -- in the table; and when the destructor returns, the table is empty, the session is reset, its
  -- monitor is gone, and the kernel dispatches no thread's syscalls.
  pub session_lem :
      (r last : Round) (qs : List Call) (a : Tracked) (v : View)
      → All (IsCalm selector) qs
      → ((t : ℕ) → IsSettled (outside selector last) t)
      → length qs < 2 ^ 32
      → Implements p 0 (outside selector r) a v
      → (a1 : Tracked) × (a2 : Tracked) × (serve selector qs a ≡ (ok tt, a1))
        × ((t : ℕ) → is_some (lookup t a1.process.thd_st) ≡ (wanted_all selector p qs v).injected t)
        × (session_of selector qs last a ≡ (ok tt, a2))
        × (a2.process.thd_st ≡ [])
        × (a2.process.session ≡ false)
        × (a2.tmon ≡ none)
        × ((t : ℕ) → a2.process.sud t ≡ false)
  unfolding session_of stop_session
  session_lem r last qs a v c cl lt i =
      let (a1, r1, n1, e1, i1) = serve-Implements 0 r qs a v c (omega arith) i in
      let i2 =
        reaped-Implements p selector n1 (outside selector r1) last a1 (wanted_all selector p qs v)
          refl i1 in
      let (s, q, empty, closed, off) =
        close_clean (outside selector last) (reaped selector last a1).process (λ t h. cl t)
          i2.open_session i2.inv in
      (
        a1,
        record { process = s; tmon = none },
        e1,
        i1.entries,
        rw e1 (rw q (rw closed refl)),
        empty,
        closed,
        refl,
        off,
      )
