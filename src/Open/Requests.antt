-- ===== src/Open/Requests.antt =====
-- The methods of Session in src/session.cc, as calls on an open session: sequences of requests, each
-- with what the kernel answers at its time, and the destructor after them.
use sysfail.Prelude.{
  ℕ, ◌≤◌, ◌≡◌, Bool, true, false, List, [], ◌∷◌, if◌then◌else◌, none, ◌||◌, ◌&&◌, not, eqb,
}
use sysfail.Prelude.Dict.{lookup, nat_eq}
use sysfail.Prelude.Lists.{elem, is_some}
use sysfail.Session.{
  Outside, Action, Result, ok, err, thd_enable, thd_disable, thd_enable_self, thd_disable_self,
  close,
}
use sysfail.Session.Threads.{IsLive}
use sysfail.Session.Invariant.{Inv, IsSettled}
use sysfail.Track.{Tracked, Round, outside, reap, discover_threads, poll_session}
use sysfail.Track.Discover.{HasMonitor}

-- `add()` and `remove()` with the thread that calls them, `add(tid)`, `remove(tid)`, and
-- `discover_threads()`; and a later round of the poller, which stands between the calls of the users.
pub data Request : Type 0 where
  add_this_thread remove_this_thread add_thread remove_thread : (tid : ℕ) → Request
  discover poller_round : Request

abbrev pub on_process : Action (Unit {0}) → Tracked → Result (Unit {0}) × Tracked
on_process m a = let (r, s) = m a.process in (r, record a { process = s })

module _ (o : Outside) where
  -- One call, with the session's pointer set.
  unfoldable pub request : List ℕ → Request → Tracked → Result (Unit {0}) × Tracked
  request listing (add_this_thread tid) a = on_process (thd_enable_self o tid) a
  request listing (remove_this_thread tid) a = on_process (thd_disable_self o tid) a
  request listing (add_thread tid) a = on_process (thd_enable o tid) a
  request listing (remove_thread tid) a = on_process (thd_disable o tid) a
  request listing discover a = discover_threads o listing a
  request listing poller_round a = poll_session o listing a

  -- `~Session`; the monitor goes with the ActiveSession.
  unfoldable pub stop_session : Tracked → Result (Unit {0}) × Tracked
  stop_session a =
      let (r, s) = close o a.process in
      (r, record { process = s; tmon = if s.session then a.tmon else none })

-- A request and what it meets.
abbrev pub Call : Type 0
Call = Round × Request

abbrev pub and_then :
    Result (Unit {0}) × Tracked
    → (Tracked → Result (Unit {0}) × Tracked)
    → Result (Unit {0}) × Tracked
and_then (ok _, a) f = f a
and_then (err e, a) f = (err e, a)

module _ (selector : ℕ → Bool) where
  abbrev pub reaped : Round → Tracked → Tracked
  reaped r a = record a { process = reap (outside selector r) a.process }

  -- The calls in order, up to the first that throws or blocks.
  unfoldable pub serve : List Call → Tracked → Result (Unit {0}) × Tracked
  unfolding request
  serve [] a = (ok tt, a)
  serve ((r, q) ∷ qs) a =
      let rest = serve qs in and_then (request (outside selector r) r.listing q (reaped r a)) rest

  -- The calls, and then the destructor, which meets `last`.
  unfoldable pub session_of : List Call → Round → Tracked → Result (Unit {0}) × Tracked
  unfolding serve stop_session
  session_of qs last a =
      and_then (serve qs a) (λ a'. stop_session (outside selector last) (reaped last a'))

  -- A thread that calls for itself gets its signals, and `prctl` succeeds in it.
  abbrev pub IsCaller : Round → Request → Type 0
  IsCaller r (add_this_thread tid) = IsLive (outside selector r) tid
  IsCaller r (remove_this_thread tid) = IsLive (outside selector r) tid
  IsCaller r (add_thread tid) = Unit
  IsCaller r (remove_thread tid) = Unit
  IsCaller r discover = Unit
  IsCaller r poller_round = Unit

  -- Each thread gets its signals or is gone at the time of the call.
  abbrev pub IsCalm : Call → Type 0
  IsCalm (r, q) = ((t : ℕ) → IsSettled (outside selector r) t) × IsCaller r q

-- The session for its users: the threads that are subject to failure injection, and those that
-- discovery has met before.
pub record View : Type 0 where
  pub injected : ℕ → Bool
  pub met : ℕ → Bool

module _ (selector : ℕ → Bool) where
  unfoldable pub joined : ℕ → View → View
  joined tid v = record v { injected = λ t. v.injected t || (eqb tid t && selector t) }

  unfoldable pub parted : ℕ → View → View
  parted tid v = record v { injected = λ t. v.injected t && not (eqb tid t) }

  -- New threads come.
  unfoldable pub gathered : List ℕ → View → View
  gathered listing v = record {
    injected = λ t. v.injected t || ((elem t listing && not (v.met t)) && selector t);
    met = λ t. elem t listing || v.met t;
  }

  -- New threads come, and threads that have ended go.
  unfoldable pub followed : List ℕ → View → View
  followed listing v = record {
    injected = λ t.
        not (v.met t && not (elem t listing))
        && (v.injected t || ((elem t listing && not (v.met t)) && selector t));
    met = λ t. elem t listing;
  }

  -- What a request is for, in a session with a poller (`true`) or without one.
  unfoldable pub wanted : Bool → List ℕ → Request → View → View
  unfolding joined parted gathered followed
  wanted p listing (add_this_thread tid) v = joined tid v
  wanted p listing (remove_this_thread tid) v = parted tid v
  wanted p listing (add_thread tid) v = joined tid v
  wanted p listing (remove_thread tid) v = parted tid v
  wanted true listing discover v = followed listing v
  wanted false listing discover v = gathered listing v
  wanted true listing poller_round v = followed listing v
  wanted false listing poller_round v = v

  unfoldable pub wanted_all : Bool → List Call → View → View
  unfolding wanted
  wanted_all p [] v = v
  wanted_all p ((r, q) ∷ qs) v = wanted_all p qs (wanted p r.listing q v)

-- An open session with or without a poller, as an implementation of a view of it, after at most `n`
-- raises of its monitor's generation.
pub record Implements (p : Bool) (n : ℕ) (o : Outside) (a : Tracked) (v : View) : Type 0 where
  pub inv : Inv o a.process
  pub open_session : a.process.session ≡ true
  pub entries : (t : ℕ) → is_some (lookup t a.process.thd_st) ≡ v.injected t
  pub gen : ℕ
  pub raised : gen ≤ n
  pub idle : p ≡ false → gen ≡ 0
  pub monitor : HasMonitor p gen v.met a
