-- ===== src/Open.antt =====
-- The constructor of Session in src/session.cc: the map of the process, the signal handlers, the
-- global session, and the monitor, in the order of the code.
pub mod Requests
pub mod Refines
pub mod Lifecycle
pub mod Steady
pub mod Isolation
pub mod Frame
pub mod Second
pub mod Lock
use sysfail.Prelude.{
  ℕ, ◌+◌, ◌<◌, ◌≡◌, refl, Bool, true, false, not, ◌&&◌, Option, none, some, List, [], ◌∷◌, map, eqb,
}
use sysfail.Prelude.Dict.{lookup, nat_eq}
use sysfail.Prelude.Lists.{elem, is_some}
use sysfail.Plan.{Strategy}
use sysfail.Signal.Table.{Table, sigsys, install, Installed, installed, thrown}
use sysfail.Signal.Unmask.{expected, install_lem}
use sysfail.Map.{Bytes, AddrRange, MapRead, unopened, unformatted, mapped, get_mmap, self_text}
use sysfail.Map.Lines.{Line, range_of}
use sysfail.Map.Text.{own, file, AreWritten, IsApart, self_text-get_mmap}
use sysfail.Session.{Process, Outside, Result, ok, err, Error, aborted}
use sysfail.Session as Session
use sysfail.Session.Invariant.{Inv, IsSettled}
use sysfail.Track.{Tracked, initialize}
use sysfail.Track.Discover.{polls, HasMonitor, initialize_lists}

-- What the constructor reads of its surroundings: the content of the maps file, if it opens; the
-- signals that sigaction(2) takes; SIGRTMIN; whether there is a task directory, and its listing; and
-- the id of the poller, if one is started.
pub record Surroundings : Type 0 where
  pub content : Option Bytes
  pub accepts : ℕ → Bool
  pub sigrtmin : ℕ
  pub exists : Bool
  pub listing : List ℕ
  pub poller : ℕ

-- A process as the constructor of Session needs it: a maps file in the kernel's format with one own
-- range `text`, four signals that sigaction takes, and a task directory whose listing has the poller.
pub record IsUsual (x : Surroundings) (ls : List Line) (text : AddrRange) : Type 0 where
  pub content : x.content ≡ some (file ls)
  pub written : AreWritten ls
  pub apart : IsApart ls
  pub one : own (map range_of ls) ≡ text ∷ []
  pub room : sigsys < x.sigrtmin
  pub sigsys_taken : x.accepts sigsys ≡ true
  pub enable_taken : x.accepts (x.sigrtmin + 4) ≡ true
  pub disable_taken : x.accepts (x.sigrtmin + 5) ≡ true
  pub rearm_taken : x.accepts (x.sigrtmin + 6) ≡ true
  pub exists : x.exists ≡ true
  pub poller_listed : elem x.poller x.listing ≡ true

pub record State : Type 0 where
  pub signals : Table
  pub tracked : Tracked

-- How the constructor ends: with a range as the session's own text, by an exception or a failed
-- assertion, or in what C++ leaves undefined, after a line that is not of the kernel's format.
pub data Opened : Type 0 where
  opened : AddrRange → Opened
  failed : Error → Opened
  indeterminate : Opened

ended : AddrRange → Result (Unit {0}) → Opened
ended text (ok _) = opened text
ended text (err e) = failed e

-- No thread has been enabled, and no session is open.
pub record IsClosed (st : State) : Type 0 where
  pub empty : st.tracked.process.thd_st ≡ []
  pub off : (t : ℕ) → st.tracked.process.sud t ≡ false

module _ (o : Outside) (x : Surroundings) (strategy : Strategy) where
  -- `session = s; s->initialize()`, with the empty table of a new ActiveSession. One that `session`
  -- had before is destroyed, its table and its monitor with it, but the kernel keeps its dispatch.
  publish : AddrRange → Table → Process → Opened × State
  unfolding ended
  publish text t s =
      let (r, a) =
        initialize o x.exists strategy x.poller x.listing
          (record s { thd_st = []; session = true }) in
      (ended text r, record { signals = t; tracked = a })

  -- The constructor of ActiveSession, and what follows it.
  activate : AddrRange → Installed → Tracked → Opened × State
  unfolding publish
  activate text (thrown t) a = (failed Session.thrown, record { signals = t; tracked = a })
  activate text (installed t) a = publish text t a.process

  found_text : Option AddrRange → State → Opened × State
  unfolding activate
  found_text none st = (failed aborted, st)
  found_text (some text) st = activate text (install x.accepts x.sigrtmin st.signals) st.tracked

  found_map : MapRead → State → Opened × State
  unfolding found_text
  found_map unopened st = (failed aborted, st)
  found_map unformatted st = (indeterminate, st)
  found_map (mapped m) st = found_text (self_text m) st

  -- `Session::Session`
  unfoldable pub open_session : State → Opened × State
  unfolding found_map
  open_session st = found_map (get_mmap x.content) st

  -- Let no session be open and no thread be enabled. Let the maps file be as the kernel writes it, with
  -- no two ranges at one address and one range that is executable and has the path of a libsysfail;
  -- let SIGRTMIN be above SIGSYS and sigaction(2) take the four signals; let the task directory exist
  -- and list the id that a poller has; and let every thread get its signals or be gone. Then the constructor returns with this range as its own
  -- text; every signal has the action that it should; the session is open, its invariant holds,
  -- its monitor polls if the strategy asks for it and knows exactly the listed threads; and exactly
  -- the listed threads that the selector picks, other than a poller, have entries in the table.
  pub open_session_ready :
      (ls : List Line) (text : AddrRange) (st : State)
      → x.content ≡ some (file ls)
      → AreWritten ls
      → IsApart ls
      → own (map range_of ls) ≡ text ∷ []
      → sigsys < x.sigrtmin
      → x.accepts sigsys ≡ true
      → x.accepts (x.sigrtmin + 4) ≡ true
      → x.accepts (x.sigrtmin + 5) ≡ true
      → x.accepts (x.sigrtmin + 6) ≡ true
      → x.exists ≡ true
      → ((t : ℕ) → IsSettled o t)
      → elem x.poller x.listing ≡ true
      → IsClosed st
      → (st' : State) × (open_session st ≡ (opened text, st'))
        × ((i : ℕ) → st'.signals i ≡ expected x.accepts x.sigrtmin st.signals i)
        × Inv o st'.tracked.process
        × (st'.tracked.process.session ≡ true)
        × HasMonitor (polls strategy) 0 (λ t. elem t x.listing) st'.tracked
        × ((t : ℕ)
            → is_some (lookup t st'.tracked.process.thd_st)
              ≡ (elem t x.listing && (o.selector t && not (polls strategy && eqb x.poller t))))
  unfolding open_session
  open_session_ready ls text st f w a one lt a0 a4 a5 a6 ex c own_listed z =
      let (m, q, p) = self_text-get_mmap ls w a in
      let (t', q', full, _) = install_lem x.accepts x.sigrtmin st.signals lt a0 a4 a5 a6 in
      let s = record st.tracked.process { thd_st = []; session = true } in
      let (tr, q'', v, e, h, d) =
        initialize_lists o strategy x.poller x.listing s c own_listed
          (record { empty = refl; off = z.off; open_session = refl }) in
      (
        record { signals = t'; tracked = tr },
        rw (f, q) (rw (p, one) (rw q' (rw (ex, q'') refl))),
        full,
        v,
        e,
        h,
        d,
      )
