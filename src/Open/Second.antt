-- ===== src/Open/Second.antt =====
-- A Session that is constructed while the kernel dispatches threads for another one, which the global
-- session of src/session.cc forgets: neither constructor nor destructor asks whether there is one.
use sysfail.Prelude.{
  ℕ, ◌^◌, ◌<◌, ◌≡◌, refl, Bool, true, false, not, ◌&&◌, Option, none, some, List, [], eqb, arith,
  ◌∙◌, ap, subst,
}
use sysfail.Prelude.Dict.{lookup, nat_eq}
use sysfail.Prelude.Lists.{elem, is_some, length}
use sysfail.Plan.{Strategy}
use sysfail.Signal.Unmask.{install_lem}
use sysfail.Map.{AddrRange}
use sysfail.Map.Lines.{Line}
use sysfail.Map.Text.{self_text-get_mmap}
use sysfail.Session.{Outside, ThdState, Result, ok}
use sysfail.Session.Invariant.{IsSettled}
use sysfail.Track.{Tracked, Round, outside, initialize}
use sysfail.Track.Discover.{polls, initialize_lists}
use sysfail.Track.Frame.{SimTracked}
use sysfail.Track.Rounds.{All}
use sysfail.Open.{Surroundings, IsUsual, State, opened, open_session}
use sysfail.Open.Requests.{Call, IsCalm, serve, session_of, View, Implements}
use sysfail.Open.Lifecycle.{session_lem}
use sysfail.Open.Frame.{IsAround, publish-AreSimilar, serve-AreSimilar, session_of-AreSimilar}

module _ (o : Outside) (strategy : Strategy) (x : Surroundings) where
  abbrev first_view : View
  first_view = record {
    injected = λ t. elem t x.listing && (o.selector t && not (polls strategy && eqb x.poller t));
    met = λ t. elem t x.listing;
  }

  -- The session is opened as in a process where the kernel dispatches no thread.
  second_opened :
      (ls : List Line) (text : AddrRange) (st : State) (tid : ℕ)
      → IsUsual x ls text
      → ((t : ℕ) → IsSettled o t)
      → o.selector tid ≡ false
      → st.tracked.process.sud tid ≡ true
      → (st' : State) × (a : Tracked) × (open_session o x strategy st ≡ (opened text, st'))
        × SimTracked o.selector tid st'.tracked a
        × Implements (polls strategy) 0 o a first_view
  unfolding open_session
  second_opened ls text st tid u c out on =
      let (m, q, p) = self_text-get_mmap ls u.written u.apart in
      let (t', q', _, _) =
        install_lem x.accepts x.sigrtmin st.signals u.room u.sigsys_taken u.enable_taken
          u.disable_taken u.rearm_taken in
      let (a, q'', v, e, h, d) =
        initialize_lists o strategy x.poller x.listing
          (record { thd_st = []; sud = λ t. false; session = true }) c u.poller_listed
          (record { empty = refl; off = λ t. refl; open_session = refl }) in
      let z : initialize o x.exists strategy x.poller x.listing
            (record { thd_st = []; sud = λ t. false; session = true })
          ≡ (ok tt, a) =
        rw u.exists q'' in
      let y =
        initialize o x.exists strategy x.poller x.listing
          (record st.tracked.process { thd_st = []; session = true }) in
      let sim = publish-AreSimilar o tid out x strategy st.tracked.process on in
      let returns : y.0 ≡ ok tt = sim.0 ∙ ap (λ w. w.0) z in
      (
        record { signals = t'; tracked = y.1 },
        a,
        rw (u.content, q) (rw (p, u.one) (rw q' (rw returns refl))),
        subst (λ w. SimTracked o.selector tid y.1 w.1) z sim.1,
        record {
          inv = v;
          open_session = e;
          entries = d;
          gen = 0;
          raised = omega arith;
          idle = λ n. refl;
          monitor = h;
        },
      )

paired : (y : Result (Unit {0}) × Tracked) → y.0 ≡ ok tt → y ≡ (ok tt, y.1)
paired y e = ap (λ r. (r, y.1)) e

unentered : {b : Bool} (e : Option ThdState) → (is_some e ≡ true → b ≡ true) → b ≡ false → e ≡ none
unentered none h f = refl
unentered (some st) h f = absurd (ground (arith, h refl, f))

module _ (selector : ℕ → Bool) (strategy : Strategy) (x : Surroundings) where
  -- Let a Session be constructed while the kernel dispatches the syscalls of a thread for another
  -- one, of which the global session is the first; the selector of the new one leaves the thread out.
  -- The process is as the constructor needs it, and its users make requests, the poller makes rounds,
  -- fewer than 2^32 in all, and the session is stopped, each when every thread gets its signals or is
  -- gone, a thread that calls for itself gets them, and the thread itself has not ended. Then every
  -- call returns, but the thread has no entry, so nothing holds the byte that the kernel reads for
  -- each of its syscalls, and the kernel goes on to dispatch it, from the constructor on and after the
  -- destructor too.
  pub second_strands :
      (r last : Round) (qs : List Call) (ls : List Line) (text : AddrRange) (st : State) (tid : ℕ)
      → IsUsual x ls text
      → ((t : ℕ) → IsSettled (outside selector r) t)
      → All (IsCalm selector) qs
      → ((t : ℕ) → IsSettled (outside selector last) t)
      → length qs < 2 ^ 32
      → selector tid ≡ false
      → st.tracked.process.sud tid ≡ true
      → All (λ c. IsAround tid c.0) qs
      → IsAround tid last
      → (st' : State) × (a1 : Tracked) × (a2 : Tracked) × (open_session
            (outside selector r)
            x
            strategy
            st
          ≡ (opened text, st'))
        × (serve selector qs st'.tracked ≡ (ok tt, a1))
        × (session_of selector qs last st'.tracked ≡ (ok tt, a2))
        × (lookup tid a1.process.thd_st ≡ none)
        × (a1.process.sud tid ≡ true)
        × (a2.process.thd_st ≡ [])
        × (a2.process.session ≡ false)
        × (a2.process.sud tid ≡ true)
  second_strands r last qs ls text st tid u c cq cl few out on near here =
      let o = outside selector r in
      let (st', a, q, m, i) = second_opened o strategy x ls text st tid u c out on in
      let (b1, b2, served, injected, ended, empty, closed, _, _) =
        session_lem (polls strategy) selector r last qs a (first_view o strategy x) cq cl few i in
      let (e1, m1) = serve-AreSimilar selector tid out qs st'.tracked a near m in
      let (e2, m2) = session_of-AreSimilar selector tid out qs last st'.tracked a near here m in
      (
        st',
        (serve selector qs st'.tracked).1,
        (session_of selector qs last st'.tracked).1,
        q,
        paired _ (e1 ∙ ap (λ w. w.0) served),
        paired _ (e2 ∙ ap (λ w. w.0) ended),
        ap (lookup tid) m1.process.table
            ∙ unentered (lookup tid (serve selector qs a).1.process.thd_st) (m1.process.chosen tid)
                out,
        m1.process.kept,
        m2.process.table ∙ ap (λ w. w.1.process.thd_st) ended ∙ empty,
        m2.process.session ∙ ap (λ w. w.1.process.session) ended ∙ closed,
        m2.process.kept,
      )
