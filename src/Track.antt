-- ===== src/Track.antt =====
-- The session as the monitor's handler: `thd_track`, `discover_threads` and `initialize` of
-- src/session.cc, and the constructor of ThdMon in src/thdmon.cc, which makes the first scan.
--
-- A scan of the model returns the calls that it makes of its handler, and they are run after it. In
-- the code they run where they stand in the scan, which does not read what they write: the table of
-- the session and the table of the monitor are different objects.
pub mod Scans
pub mod Rounds
pub mod Start
pub mod Discover
pub mod Follow
pub mod Steady
pub mod Frame
pub mod Race
use sysfail.Prelude.{
  ℕ, Bool, true, false, not, ◌&&◌, Option, none, some, List, [], ◌∷◌, ◌++◌, if◌then◌else◌,
}
use sysfail.Prelude.Int.{ℤ}
use sysfail.Plan.{Strategy, proc_poll, no_discovery}
use sysfail.ThdMon.{
  DiscThdSt, self, existing, spawned, terminated, Events, ThdMon, scan_tasks, rescan_threads,
  poll_start, poll_round, new_monitor,
}
use sysfail.Signal.{Sent, called_back, send_signal}
use sysfail.Session.{
  Process, Outside, Action, Result, ok, err, thrown, pure, thd_enable, thd_disable, next, ◌>>◌,
}

module _ (o : Outside) where
  -- `ActiveSession::thd_track`
  unfoldable pub thd_track : ℕ → DiscThdSt → Action (Unit {0})
  thd_track tid existing = thd_enable o tid
  thd_track tid spawned = thd_enable o tid
  thd_track tid terminated = thd_disable o tid
  thd_track tid self = pure

  -- The calls of the handler, in order.
  unfoldable pub track_all : Events → Action (Unit {0})
  unfolding thd_track
  track_all [] = pure
  track_all ((tid, st) ∷ ev) = let rest = track_all ev in thd_track tid st >> rest

-- An ActiveSession with its monitor, once `initialize` has made one.
pub record Tracked : Type 0 where
  pub process : Process
  pub tmon : Option ThdMon

module _ (o : Outside) where
  -- The monitor and the handler's calls of one step of it.
  unfoldable pub observe : Events × ThdMon → Process → Result (Unit {0}) × Tracked
  unfolding track_all
  observe (ev, mon) s =
      let (r, s') = track_all o ev s in (r, record { process = s'; tmon = some mon })

  rescan : List ℕ → Option ThdMon → Process → Result (Unit {0}) × Tracked
  unfolding observe
  rescan listing none s = (err thrown, record { process = s; tmon = none })
  rescan listing (some mon) s = observe (rescan_threads listing mon) s

  -- `ActiveSession::discover_threads`, on a listing of the tasks.
  unfoldable pub discover_threads : List ℕ → Tracked → Result (Unit {0}) × Tracked
  unfolding rescan
  discover_threads listing a = rescan listing a.tmon a.process

  poll : List ℕ → Option ThdMon → Process → Result (Unit {0}) × Tracked
  unfolding observe
  poll listing none s = (ok tt, record { process = s; tmon = none })
  poll listing (some mon) s =
      if mon.polling
      then observe (poll_round listing mon) s
      else (ok tt, record { process = s; tmon = some mon })

  -- A round of the poller after the first one, if there is a poller.
  unfoldable pub poll_session : List ℕ → Tracked → Result (Unit {0}) × Tracked
  unfolding poll
  poll_session listing a = poll listing a.tmon a.process

  -- What the constructor of ThdMon does with its strategy. With a poller, thread `poller`, it waits
  -- for the first round.
  first_scan : Strategy → ℕ → List ℕ → Events × ThdMon
  first_scan (proc_poll itvl) poller listing =
      let (ev, mon) = poll_start poller (new_monitor true) in
      let (ev', mon') = scan_tasks listing mon in (ev ++ ev', mon')
  first_scan no_discovery poller listing = scan_tasks listing (new_monitor false)

  -- `ActiveSession::initialize`; `exists` tells whether there is a task directory.
  unfoldable pub initialize : Bool → Strategy → ℕ → List ℕ → Process → Result (Unit {0}) × Tracked
  unfolding first_scan observe
  initialize exists strategy poller listing s =
      if exists
      then observe (first_scan strategy poller listing) s
      else (err thrown, record { process = s; tmon = none })

-- What one round of the poller meets: the kernel's answers, whether `prctl` works, and the listing.
pub record Round : Type 0 where
  pub answer : ℕ → ℤ
  pub prctl_ok : ℕ → Bool
  pub listing : List ℕ

abbrev pub outside : (ℕ → Bool) → Round → Outside
outside selector r = record { selector = selector; answer = r.answer; prctl_ok = r.prctl_ok }

abbrev pub is_gone : Sent → Bool
is_gone called_back = true
is_gone _ = false

-- The kernel's dispatch of a thread ends with the thread.
abbrev pub reap : Outside → Process → Process
reap o s = record s { sud = λ t. s.sud t && not (is_gone (send_signal (o.answer t) true)) }

module _ (selector : ℕ → Bool) where
  -- The loop of `ThdMon::process` with the handler's calls, for the rounds after the first one and
  -- until it sees `stop`.
  unfoldable pub poll_rounds : List Round → ThdMon → Action ThdMon
  unfolding track_all
  poll_rounds [] mon s = (ok mon, s)
  poll_rounds (r ∷ rs) mon s =
      let (ev, mon') = poll_round r.listing mon in
      let rest = poll_rounds rs mon' in
      next (track_all (outside selector r) ev (reap (outside selector r) s)) (λ _. rest)

  -- `ThdMon::process`, in the thread `poller`: there is a first round, since `stop` is read after it.
  unfoldable pub process : ℕ → Round → List Round → Action ThdMon
  unfolding track_all poll_rounds
  process poller r rs s =
      let (ev, mon) = poll_start poller (new_monitor true) in
      let (ev', mon') = scan_tasks r.listing mon in
      next
        (next (track_all (outside selector r) ev s)
          (λ _ s'. track_all (outside selector r) ev' (reap (outside selector r) s')))
        (λ _. poll_rounds rs mon')
