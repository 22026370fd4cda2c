-- ===== src/Open/Lock.antt =====
-- The methods of Session in src/session.cc against its destructor, under the `std::shared_mutex` of
-- the Session: the methods share it, the destructor holds it alone. Methods of several threads run
-- side by side. Each call of `thd_enable` and `thd_disable` is one step: `discover_threads` makes
-- those of its scan one by one. The session has no poller: nothing else moves the table.
--
-- Two calls of `discover_threads` at once write the table of the monitor without a lock, which C++
-- leaves undefined: the model ends there, in `raced`. A method that waits for the lock when the
-- destructor gets it is not modelled: the lock goes with the object.
pub mod Safety
pub mod Ending
use sysfail.Prelude.{ℕ, suc, ◌≡◌, Option, none, some, true, false, List, [], ◌∷◌}
use sysfail.Prelude.Dict.{Dict, lookup, keys, nat_eq}
use sysfail.Prelude.Lists.{elem, is_some}
use sysfail.ThdMon.{DiscThdSt, Events, ThdMon, rescan_threads}
use sysfail.Session.{
  ThdState, Process, Outside, Action, ok, thd_enable, thd_disable, thd_enable_self,
  thd_disable_self,
}
use sysfail.Session.Threads.{IsLive}
use sysfail.Session.Invariant.{Inv}
use sysfail.Track.{thd_track}

-- Where the destructor stands: before it has the lock, with ids left to disable, past its assertion,
-- or ended by it; and, of the whole process, that two scans have met.
pub data Stop : Type 0 where
  waiting stopped aborted raced : Stop
  disabling : List ℕ → Stop

pub record Locked : Type 0 where
  pub process : Process
  pub tmon : ThdMon
  pub sharing : ℕ  -- how many methods have the lock, outside `rescan_threads`
  pub scan : Option Events  -- the method inside it, by the calls that it has left to make
  pub stop : Stop

-- `add` and `remove`
pub data Act : Type 0 where
  add_this_thread remove_this_thread add_thread remove_thread : ℕ → Act

module _ (o : Outside) where
  unfoldable pub act : Act → Action (Unit {0})
  act (add_this_thread tid) = thd_enable_self o tid
  act (remove_this_thread tid) = thd_disable_self o tid
  act (add_thread tid) = thd_enable o tid
  act (remove_thread tid) = thd_disable o tid

  -- A thread that calls for itself gets its signals, and `prctl` succeeds in it.
  abbrev pub IsByLive : Act → Type 0
  IsByLive (add_this_thread tid) = IsLive o tid
  IsByLive (remove_this_thread tid) = IsLive o tid
  IsByLive (add_thread tid) = Unit
  IsByLive (remove_thread tid) = Unit

  pub data Step (l : Locked) : Locked → Type 0 where
    enter : l.stop ≡ waiting → Step l (record l { sharing = suc l.sharing })
    call :
        (a : Act) (n : ℕ) {s : Process}
        → l.sharing ≡ suc n
        → IsByLive a
        → act a l.process ≡ (ok tt, s)
        → Step l (record l { process = s })
    leave : (n : ℕ) → l.sharing ≡ suc n → Step l (record l { sharing = n })
    -- `rescan_threads`, which takes no other lock where there is no poller.
    begin_scan :
        (listing : List ℕ) (n : ℕ)
        → l.sharing ≡ suc n
        → l.scan ≡ none
        → Step l (record l {
          tmon = (rescan_threads listing l.tmon).1;
          sharing = n;
          scan = some (rescan_threads listing l.tmon).0;
        })
    report :
        (tid : ℕ) (st : DiscThdSt) (ev : Events) {s : Process}
        → l.scan ≡ some ((tid, st) ∷ ev)
        → thd_track o tid st l.process ≡ (ok tt, s)
        → Step l (record l { process = s; scan = some ev })
    end_scan : l.scan ≡ some [] → Step l (record l { sharing = suc l.sharing; scan = none })
    race :
        (n : ℕ) (ev : Events)
        → l.sharing ≡ suc n
        → l.scan ≡ some ev
        → Step l (record l { stop = raced })
    -- The destructor gets the lock, and collects the ids.
    lock :
        l.stop ≡ waiting
        → l.sharing ≡ 0
        → l.scan ≡ none
        → Step l (record l { stop = disabling (keys l.process.thd_st) })
    disable_one :
        (tid : ℕ) (tids : List ℕ) {s : Process}
        → l.stop ≡ disabling (tid ∷ tids)
        → thd_disable o tid l.process ≡ (ok tt, s)
        → Step l (record l { process = s; stop = disabling tids })
    check_empty :
        l.stop ≡ disabling []
        → l.process.thd_st ≡ []
        → Step l (record l { process = record l.process { session = false }; stop = stopped })
    check_failed :
        (x : ℕ × ThdState) (m : Dict ℕ ThdState)
        → l.stop ≡ disabling []
        → l.process.thd_st ≡ x ∷ m
        → Step l (record l { stop = aborted })

  pub data Reach (a : Locked) : Locked → Type 0 where
    here : Reach a a
    after : {b c : Locked} → Reach a b → Step b c → Reach a c

  -- A table with no entries but those for these threads.
  abbrev pub Within : List ℕ → Process → Type 0
  Within tids s = (t : ℕ) → is_some (lookup t s.thd_st) ≡ true → elem t tids ≡ true

  abbrev pub IsOpen : Process → Type 0
  IsOpen s = Inv o s × (s.session ≡ true)

  -- Alone with the table the destructor has yet to disable each thread in it.
  abbrev pub Stage : Stop → Locked → Type 0
  Stage waiting l = IsOpen l.process
  Stage (disabling tids) l =
      IsOpen l.process × (l.sharing ≡ 0) × (l.scan ≡ none) × Within tids l.process
  Stage stopped l =
      (l.sharing ≡ 0)
      × (l.scan ≡ none)
      × (l.process.thd_st ≡ [])
      × (l.process.session ≡ false)
      × ((t : ℕ) → l.process.sud t ≡ false)
  Stage aborted l = ⊥
  Stage raced l = Unit
