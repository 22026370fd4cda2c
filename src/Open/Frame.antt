-- ===== src/Open/Frame.antt =====
-- The constructor of Session, the methods of an open session, the rounds of its poller and the
-- destructor: what they do with the table does not depend on the kernel's dispatch, and a thread that
-- the selector leaves out keeps its own.
use sysfail.Prelude.{ℕ, ◌≡◌, refl, Bool, true, false, List, [], ◌∷◌, arith}
use sysfail.Prelude.Dict.{lookup, nat_eq}
use sysfail.Plan.{Strategy}
use sysfail.Signal.{send_signal}
use sysfail.Session.{Process, Outside, Action, Result, ok, err}
use sysfail.Session.Frame.{Keeps}
use sysfail.Session.Frame.Calls.{
  thd_enable-Keeps, thd_disable-Keeps, thd_enable_self-Keeps, thd_disable_self-Keeps, close-Keeps,
}
use sysfail.Track.{Tracked, Round, outside, is_gone, initialize}
use sysfail.Track.Frame.{
  SimTracked, AreSimilar, initialize-AreSimilar, discover_threads-AreSimilar,
  poll_session-AreSimilar, reap-Sim,
}
use sysfail.Track.Rounds.{All}
use sysfail.Open.{Surroundings}
use sysfail.Open.Requests.{
  Request, add_this_thread, remove_this_thread, add_thread, remove_thread, discover, poller_round,
  on_process, request, stop_session, Call, and_then, reaped, serve, session_of,
}

module _ (selector : ℕ → Bool) (x : ℕ) where
  on_process-AreSimilar :
      (m : Action (Unit {0})) (a b : Tracked)
      → Keeps selector x m
      → SimTracked selector x a b
      → AreSimilar selector x (on_process m a) (on_process m b)
  on_process-AreSimilar m a b h r =
      let (e, r') = h a.process b.process r.process in
      (e, record { monitor = r.monitor; process = r' })

  and_then-AreSimilar :
      (f : Tracked → Result (Unit {0}) × Tracked) (y z : Result (Unit {0}) × Tracked)
      → AreSimilar selector x y z
      → ((a b : Tracked) → SimTracked selector x a b → AreSimilar selector x (f a) (f b))
      → AreSimilar selector x (and_then y f) (and_then z f)
  and_then-AreSimilar f (ok _, a) (ok _, b) (e, r) h = h a b r
  and_then-AreSimilar f (err c, a) (err d, b) (e, r) h = (e, r)
  and_then-AreSimilar f (ok _, a) (err d, b) (e, r) h = absurd (ground (arith, e))
  and_then-AreSimilar f (err c, a) (ok _, b) (e, r) h = absurd (ground (arith, e))

module _ (o : Outside) (x : ℕ) (out : o.selector x ≡ false) where
  request-AreSimilar :
      (listing : List ℕ) (q : Request) (a b : Tracked)
      → SimTracked o.selector x a b
      → AreSimilar o.selector x (request o listing q a) (request o listing q b)
  unfolding request
  request-AreSimilar listing (add_this_thread tid) a b r =
      on_process-AreSimilar o.selector x _ a b (thd_enable_self-Keeps o x out tid) r
  request-AreSimilar listing (remove_this_thread tid) a b r =
      on_process-AreSimilar o.selector x _ a b (thd_disable_self-Keeps o x out tid) r
  request-AreSimilar listing (add_thread tid) a b r =
      on_process-AreSimilar o.selector x _ a b (thd_enable-Keeps o x out tid) r
  request-AreSimilar listing (remove_thread tid) a b r =
      on_process-AreSimilar o.selector x _ a b (thd_disable-Keeps o x out tid) r
  request-AreSimilar listing discover a b r = discover_threads-AreSimilar o x out listing a b r
  request-AreSimilar listing poller_round a b r = poll_session-AreSimilar o x out listing a b r

  stop_session-AreSimilar :
      (a b : Tracked)
      → SimTracked o.selector x a b
      → AreSimilar o.selector x (stop_session o a) (stop_session o b)
  unfolding stop_session
  stop_session-AreSimilar a b r =
      let (e, r') = close-Keeps o x out a.process b.process r.process in
      (e, record { monitor = ground (arith, r.monitor, r'.session); process = r' })

  -- The end of the constructor: the process, and another in which the kernel dispatches no thread.
  pub publish-AreSimilar :
      (y : Surroundings) (strategy : Strategy) (s : Process)
      → s.sud x ≡ true
      → AreSimilar o.selector x
          (initialize o y.exists strategy y.poller y.listing
            (record s { thd_st = []; session = true }))
          (initialize o y.exists strategy y.poller y.listing
            (record { thd_st = []; sud = λ t. false; session = true }))
  unfolding lookup
  publish-AreSimilar y strategy s on =
      initialize-AreSimilar o x out y.exists strategy y.poller y.listing _ _ record {
        table = refl;
        session = refl;
        kept = on;
        chosen = λ u e. absurd (ground (arith, e));
      }

-- The thread has not ended.
abbrev pub IsAround : ℕ → Round → Type 0
IsAround x r = is_gone (send_signal (r.answer x) true) ≡ false

module _ (selector : ℕ → Bool) (x : ℕ) (out : selector x ≡ false) where
  reaped-Sim :
      (r : Round) (a b : Tracked)
      → IsAround x r
      → SimTracked selector x a b
      → SimTracked selector x (reaped selector r a) (reaped selector r b)
  reaped-Sim r a b here m = record {
    monitor = m.monitor;
    process = reap-Sim selector x r a.process b.process here m.process;
  }

  pub serve-AreSimilar :
      (qs : List Call) (a b : Tracked)
      → All (λ c. IsAround x c.0) qs
      → SimTracked selector x a b
      → AreSimilar selector x (serve selector qs a) (serve selector qs b)
  unfolding serve
  serve-AreSimilar [] a b h m = (refl, m)
  serve-AreSimilar ((r, q) ∷ qs) a b h m =
      and_then-AreSimilar selector x (serve selector qs) _ _
        (request-AreSimilar (outside selector r) x out r.listing q (reaped selector r a)
          (reaped selector r b) (reaped-Sim r a b h.0 m))
        (λ a' b' m'. serve-AreSimilar qs a' b' h.1 m')

  pub session_of-AreSimilar :
      (qs : List Call) (last : Round) (a b : Tracked)
      → All (λ c. IsAround x c.0) qs
      → IsAround x last
      → SimTracked selector x a b
      → AreSimilar selector x (session_of selector qs last a) (session_of selector qs last b)
  unfolding session_of
  session_of-AreSimilar qs last a b h here m =
      and_then-AreSimilar selector x
        (λ a'. stop_session (outside selector last) (reaped selector last a')) _ _
        (serve-AreSimilar qs a b h m)
        (λ a' b' m'.
          stop_session-AreSimilar (outside selector last) x out (reaped selector last a')
            (reaped selector last b') (reaped-Sim last a' b' here m'))
