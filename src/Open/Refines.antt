-- ===== src/Open/Refines.antt =====
-- Each method of Session, and a round of the poller, against what it is for.
use sysfail.Prelude.{
  if_false, ℕ, ◌≡◌, refl, Bool, false, List, ◌∙◌, ap, arith, ◌+◌, ◌^◌, ◌<◌, true, sym,
}
use sysfail.Prelude.Dict.{lookup, nat_eq}
use sysfail.Prelude.Lists.{is_some}
use sysfail.Session.{Outside, Process, Action, ok, thd_enable, thd_disable}
use sysfail.Session.Invariant.{Inv, IsSettled, thd_enable-Inv, thd_disable-Inv}
use sysfail.Track.{Tracked, discover_threads, poll_session}
use sysfail.Track.Discover.{HasMonitor, discover_accumulates}
use sysfail.Track.Follow.{discover-Follows}
use sysfail.Open.Requests.{on_process, View, joined, parted, gathered, followed, Implements}

pub same_monitor :
    {p : Bool} {gen : ℕ} {known : ℕ → Bool} {a : Tracked} (s : Process) (known' : ℕ → Bool)
    → HasMonitor p gen known a
    → ((t : ℕ) → known t ≡ known' t)
    → HasMonitor p gen known' (record a { process = s })
same_monitor s known' h k = record {
  mon = h.mon;
  found = h.found;
  mode = h.mode;
  generation = h.generation;
  bounded = h.bounded;
  knows = λ t. h.knows t ∙ k t;
}

held :
    (m : Action (Unit {0})) (a : Tracked) (s : Process)
    → m a.process ≡ (ok tt, s)
    → on_process m a ≡ (ok tt, record a { process = s })
held m a s e = rw e refl

pub same_call :
    (m n : Action (Unit {0})) (a : Tracked)
    → m a.process ≡ n a.process
    → on_process m a ≡ on_process n a
same_call m n a e = ap (λ x. (x.0, record a { process = x.1 })) e

module _ (p : Bool) (n : ℕ) (o : Outside) (a : Tracked) (v : View) (i : Implements p n o a v)
    (c : (t : ℕ) → IsSettled o t) where
  -- A step that leaves the monitor alone.
  unwatched :
      (s : Process) (w : ℕ → Bool)
      → Inv o s
      → s.session ≡ true
      → ((t : ℕ) → is_some (lookup t s.thd_st) ≡ w t)
      → Implements p (n + 1) o (record a { process = s }) (record v { injected = w })
  unwatched s w v' e d = record {
    inv = v';
    open_session = e;
    entries = d;
    gen = i.gen;
    raised = omega (arith, i.raised);
    idle = i.idle;
    monitor = same_monitor s v.met i.monitor (λ t. refl);
  }

  pub add_steps :
      (tid : ℕ)
      → (a' : Tracked) × (on_process (thd_enable o tid) a ≡ (ok tt, a'))
        × Implements p (n + 1) o a' (joined o.selector tid v)
  unfolding joined
  add_steps tid =
      let (s, q, v', e, d) = thd_enable-Inv o tid a.process (c tid) i.open_session i.inv in
      (
        record a { process = s },
        held (thd_enable o tid) a s q,
        unwatched s _ v' e (λ t. ground (arith, d t, i.entries t)),
      )

  pub remove_steps :
      (tid : ℕ)
      → (a' : Tracked) × (on_process (thd_disable o tid) a ≡ (ok tt, a'))
        × Implements p (n + 1) o a' (parted o.selector tid v)
  unfolding parted
  remove_steps tid =
      let (s, q, v', e, d, _) = thd_disable-Inv o tid a.process (c tid) i.open_session i.inv in
      (
        record a { process = s },
        held (thd_disable o tid) a s q,
        unwatched s _ v' e (λ t. ground (arith, d t, i.entries t)),
      )

pub no_round :
    (n : ℕ) (o : Outside) (a : Tracked) (v : View) (listing : List ℕ)
    → Implements false n o a v
    → (poll_session o listing a ≡ (ok tt, a)) × Implements false (n + 1) o a v
unfolding poll_session
no_round n o a v listing i =
    let h = i.monitor in
    (
      ap (λ m. poll_session o listing (record { process = a.process; tmon = m })) h.found
          ∙ if_false h.mon.polling _ _ h.mode
          ∙ ap (λ m. (ok tt, record { process = a.process; tmon = m })) (sym h.found),
      record {
        inv = i.inv;
        open_session = i.open_session;
        entries = i.entries;
        gen = i.gen;
        raised = omega (arith, i.raised);
        idle = i.idle;
        monitor = i.monitor;
      },
    )

module _ (n : ℕ) (o : Outside) (a : Tracked) (v : View) (c : (t : ℕ) → IsSettled o t)
    (listing : List ℕ) where
  pub discover_gathers :
      Implements false n o a v
      → (a' : Tracked) × (discover_threads o listing a ≡ (ok tt, a'))
        × Implements false (n + 1) o a' (gathered o.selector listing v)
  unfolding gathered
  discover_gathers i =
      let h = i.monitor in
      let (a', q, v', e, h', d) =
        discover_accumulates o listing h.mon a.process h.mode (h.generation ∙ i.idle refl) h.bounded
          c i.open_session i.inv in
      (
        a',
        ap (λ m. discover_threads o listing (record { process = a.process; tmon = m })) h.found ∙ q,
        record {
          inv = v';
          open_session = e;
          entries = λ t. ground (arith, d t, i.entries t, h.knows t);
          gen = 0;
          raised = omega arith;
          idle = λ p. refl;
          monitor = same_monitor a'.process _ h' (λ t. ground (arith, h.knows t));
        },
      )

  pub watch_follows :
      n + 1 < 2 ^ 32
      → Implements true n o a v
      → (a' : Tracked) × (discover_threads o listing a ≡ (ok tt, a'))
        × (poll_session o listing a ≡ (ok tt, a'))
        × Implements true (n + 1) o a' (followed o.selector listing v)
  unfolding followed
  watch_follows lt i =
      let h = i.monitor in
      let (a', q, q', (v', e, h', d)) =
        discover-Follows o listing h.mon a.process h.mode h.bounded
          (omega (arith, i.raised, h.generation)) c i.open_session i.inv in
      (
        a',
        ap (λ m. discover_threads o listing (record { process = a.process; tmon = m })) h.found ∙ q,
        ap (λ m. poll_session o listing (record { process = a.process; tmon = m })) h.found ∙ q',
        record {
          inv = v';
          open_session = e;
          entries = λ t. ground (arith, d t, i.entries t, h.knows t);
          gen = h.mon.gen + 1;
          raised = omega (arith, i.raised, h.generation);
          idle = λ p. cc;
          monitor = h';
        },
      )
