-- ===== src/Track/Discover.antt =====
-- `initialize` with either strategy, and `discover_threads` without a poller.
use sysfail.Prelude.{
  if_false, ℕ, ◌≡◌, refl, Bool, true, false, not, ◌&&◌, ◌||◌, some, List, [], ◌∷◌, arith, eqb, ◌∙◌,
  ap, Option, none,
}
use sysfail.Prelude.Dict.{lookup, insert, nat_eq}
use sysfail.Prelude.Lists.{elem, is_some}
use sysfail.Plan.{Strategy, proc_poll, no_discovery}
use sysfail.ThdMon.{self, Events, ThdMon, scan_tasks, rescan_threads, poll_start, new_monitor}
use sysfail.ThdMon.Rounds.{is_known, marked, scan-lookup}
use sysfail.Session.{Process, Outside, ok}
use sysfail.Session.Invariant.{Inv, IsSettled}
use sysfail.Track.{Tracked, track_all, observe, initialize, discover_threads}
use sysfail.Track.Scans.{track_scan}
use sysfail.ThdMon.Rescan.{IsBounded, scan-IsBounded}
use sysfail.ThdMon.Scan.{Distinct, is_stale, mark-lookup}
use sysfail.Track.Start.{
  stale_none, IsFresh, IsFresh-Inv, no_entry, started, started-IsBounded, started_before,
  started_knows,
}

-- The session polls for threads.
abbrev pub polls : Strategy → Bool
polls (proc_poll itvl) = true
polls no_discovery = false

-- The session's monitor, at this generation: no entry of its table is of a later one, and its table
-- has the threads that `known` tells, each once.
pub record HasMonitor (p : Bool) (gen : ℕ) (known : ℕ → Bool) (a : Tracked) : Type 0 where
  pub mon : ThdMon
  pub found : a.tmon ≡ some mon
  pub mode : mon.polling ≡ p
  pub generation : mon.gen ≡ gen
  pub bounded : IsBounded mon
  pub knows : (t : ℕ) → is_known t mon ≡ known t

is_stale_zero : (x : Option ℕ) → is_stale 0 x ≡ false
is_stale_zero none = refl
is_stale_zero (some g) = ground arith

-- A scan at generation 0 forgets no thread.
scan_knows :
    (listing : List ℕ) (mon : ThdMon)
    → mon.gen ≡ 0
    → Distinct mon.known_thds
    → (t : ℕ) → is_known t (scan_tasks listing mon).1 ≡ (elem t listing || is_known t mon)
scan_knows listing mon z h t = ground (
  arith,
  scan-lookup listing mon t h,
  mark-lookup mon.gen listing ([], mon.known_thds) t,
  is_stale_zero (lookup t (marked listing mon).1),
  ap (λ g. is_stale g (lookup t (marked listing mon).1)) z,
)

scan_HasMonitor :
    (listing : List ℕ) (mon : ThdMon) (s : Process) {known : ℕ → Bool}
    → mon.polling ≡ false
    → mon.gen ≡ 0
    → IsBounded mon
    → ((t : ℕ) → (elem t listing || is_known t mon) ≡ known t)
    → HasMonitor false 0 known (record { process = s; tmon = some (scan_tasks listing mon).1 })
unfolding scan_tasks
scan_HasMonitor listing mon s p z h k = record {
  mon = (scan_tasks listing mon).1;
  found = refl;
  mode = p;
  generation = z;
  bounded = scan-IsBounded listing mon h;
  knows = λ t. scan_knows listing mon z h.distinct t ∙ k t;
}

rescan_idle :
    (listing : List ℕ) (mon : ThdMon)
    → mon.polling ≡ false
    → rescan_threads listing mon ≡ scan_tasks listing mon
unfolding rescan_threads
rescan_idle listing mon p = if_false mon.polling _ _ p

fresh_knows_none : (t : ℕ) → is_known t (new_monitor false) ≡ false
unfolding new_monitor lookup
fresh_knows_none t = refl

first_HasMonitor :
    (selector : ℕ → Bool) (poller : ℕ) (listing : List ℕ) (s : Process)
    → elem poller listing ≡ true
    → HasMonitor true 0
        (λ t. elem t listing)
        (record { process = s; tmon = some (scan_tasks listing (started selector poller)).1 })
unfolding scan_tasks
first_HasMonitor selector poller listing s own = record {
  mon = (scan_tasks listing (started selector poller)).1;
  found = refl;
  mode = refl;
  generation = refl;
  bounded = scan-IsBounded listing (started selector poller) (started-IsBounded selector poller);
  knows = started_knows selector poller listing own;
}

fresh-IsBounded : IsBounded (new_monitor false)
unfolding new_monitor lookup
fresh-IsBounded = record { distinct = tt; bounded = λ t g e. ground arith }

module _ (o : Outside) where
  pub observe_ok :
      (ev : Events) (mon : ThdMon) (s s' : Process)
      → track_all o ev s ≡ (ok tt, s')
      → observe o (ev, mon) s ≡ (ok tt, record { process = s'; tmon = some mon })
  unfolding observe
  observe_ok ev mon s s' e = rw e refl

  -- `initialize` finds the task directory, and every thread gets its signals or is gone: the
  -- constructor of the monitor returns, the session is open, its monitor polls if the strategy asks
  -- for it and knows exactly the listed threads, the invariant holds, and exactly the listed
  -- threads that the selector picks have entries, other than the poller, if there is one; the
  -- poller lists itself.
  pub initialize_lists :
      (strategy : Strategy) (poller : ℕ) (listing : List ℕ) (s : Process)
      → ((t : ℕ) → IsSettled o t)
      → elem poller listing ≡ true
      → IsFresh s
      → (a : Tracked) × (initialize o true strategy poller listing s ≡ (ok tt, a))
        × Inv o a.process
        × (a.process.session ≡ true)
        × HasMonitor (polls strategy) 0 (λ t. elem t listing) a
        × ((t : ℕ)
            → is_some (lookup t a.process.thd_st)
              ≡ (elem t listing && (o.selector t && not (polls strategy && eqb poller t))))
  unfolding initialize poll_start new_monitor insert scan_tasks
  initialize_lists (proc_poll itvl) poller listing s c own f =
      let mon = started o.selector poller in
      let (s', q, v, e, d) =
        track_scan o listing mon (λ t. false) s (stale_none listing mon refl) c f.open_session
          (IsFresh-Inv o f) in
      (
        record { process = s'; tmon = some (scan_tasks listing mon).1 },
        observe_ok ((poller, self) ∷ (scan_tasks listing mon).0) (scan_tasks listing mon).1 s s'
            (unfold track_all in q),
        v,
        e,
        first_HasMonitor o.selector poller listing s' own,
        λ t. ground (
          arith,
          d t,
          started_before o.selector poller t,
          ap (λ m. is_some (lookup t m)) f.empty,
          no_entry t,
        ),
      )
  initialize_lists no_discovery poller listing s c own f =
      let mon = new_monitor false in
      let (s', q, v, e, d) =
        track_scan o listing mon (λ t. false) s (stale_none listing mon refl) c f.open_session
          (IsFresh-Inv o f) in
      (
        record { process = s'; tmon = some (scan_tasks listing mon).1 },
        observe_ok (scan_tasks listing mon).0 (scan_tasks listing mon).1 s s' q,
        v,
        e,
        scan_HasMonitor listing mon s' refl refl fresh-IsBounded
            (λ t. ground (arith, fresh_knows_none t)),
        λ t.
            ground
              (arith, d t, ap (λ m. is_some (lookup t m)) f.empty, no_entry t, fresh_knows_none t),
      )

  -- Without a poller, `discover_threads` keeps the invariant, the open session its monitor and
  -- what it knows, gives entries to the listed threads that are new to the monitor and picked by the selector, and
  -- takes no entry away, whatever the listing leaves out.
  pub discover_accumulates :
      (listing : List ℕ) (mon : ThdMon) (s : Process)
      → mon.polling ≡ false
      → mon.gen ≡ 0
      → IsBounded mon
      → ((t : ℕ) → IsSettled o t)
      → s.session ≡ true
      → Inv o s
      → (a : Tracked) × (discover_threads o listing (record { process = s; tmon = some mon })
          ≡ (ok tt, a))
        × Inv o a.process
        × (a.process.session ≡ true)
        × HasMonitor false 0 (λ t. elem t listing || is_known t mon) a
        × ((t : ℕ)
            → is_some (lookup t a.process.thd_st) ≡ (
                is_some (lookup t s.thd_st)
                || ((elem t listing && not (is_known t mon)) && o.selector t)))
  unfolding discover_threads scan_tasks
  discover_accumulates listing mon s p z h c e v =
      let (s', q, v', e', d) =
        track_scan o listing mon (λ t. false) s (stale_none listing mon z) c e v in
      (
        record { process = s'; tmon = some (scan_tasks listing mon).1 },
        ap (λ x. observe o x s) (rescan_idle listing mon p)
            ∙ observe_ok (scan_tasks listing mon).0 (scan_tasks listing mon).1 s s' q,
        v',
        e',
        scan_HasMonitor listing mon s' p z h (λ t. refl),
        λ t. ground (arith, d t),
      )
