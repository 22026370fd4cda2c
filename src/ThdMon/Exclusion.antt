-- ===== src/ThdMon/Exclusion.antt =====
-- What holds of the monitor's threads however they interleave.
use sysfail.Prelude.{refl, ◌<◌, ◌≡◌, ◌≢◌, Bool, true, false, arith, ◌⊎◌, inl, inr}
use sysfail.ThdMon.Threads.{
  serving, checking, woken, testing, by_poller, by_owner, Poller, starting, locking, scanning,
  scanned, waiting, relocking, gone, Owner, acquiring, rescanning, stopping, joining, joined,
  Threads, Step, start, lock, scan, announce, no_wait, wait, wake, relock, wait_again, wait_over,
  leave, again, acquire, rescan, rescanned, set_stop, notify, join, created, Reach, new, after,
}

abbrev pub poller_holds : Poller → Bool
poller_holds starting = false
poller_holds locking = false
poller_holds waiting = false
poller_holds relocking = false
poller_holds gone = false
poller_holds _ = true

abbrev pub owner_holds : Owner → Bool
owner_holds rescanning = true
owner_holds stopping = true
owner_holds _ = false

abbrev pub is_ending : Owner → Bool
is_ending stopping = true
is_ending joining = true
is_ending joined = true
is_ending _ = false

-- Up to the end of its first round, unless it goes on to another one.
abbrev pub is_early : Poller → Bool
is_early starting = true
is_early locking = true
is_early scanning = true
is_early scanned = true
is_early _ = false

pub record Inv (s : Threads) : Type 0 where
  pub poller_has : poller_holds s.poller ≡ true → s.holder ≡ by_poller
  pub owner_has : owner_holds s.owner ≡ true → s.holder ≡ by_owner
  pub has_poller : s.holder ≡ by_poller → poller_holds s.poller ≡ true
  pub has_owner : s.holder ≡ by_owner → owner_holds s.owner ≡ true
  pub stopped : s.stop ≡ is_ending s.owner
  pub gone_stopped : s.poller ≡ gone → s.stop ≡ true
  pub joined_gone : s.owner ≡ joined → s.poller ≡ gone
  pub scanned_once : s.poller ≡ scanned → 0 < s.scans
  pub announced : 0 < s.initialized → 0 < s.scans
  pub constructed : (s.owner ≡ acquiring) ⊎ (0 < s.scans)
  pub waited :
      s.owner ≡ acquiring → (0 < s.initialized) ⊎ ((s.gen ≡ 0) × (is_early s.poller ≡ true))

created-Inv : Inv created
created-Inv = ground arith

pub Step-Inv : {s t : Threads} → Step s t → Inv s → Inv t
Step-Inv (start e) i = ground arith
Step-Inv (lock e h) i = ground arith
Step-Inv (scan e) i = ground arith
Step-Inv (announce e) i = ground arith
Step-Inv (no_wait e h) i = ground arith
Step-Inv (wait e h) i = ground arith
Step-Inv (wake e) i = ground arith
Step-Inv (relock e h) i = ground arith
Step-Inv (wait_again e h) i = ground arith
Step-Inv (wait_over e) i = ground arith
Step-Inv (leave e h) i = ground arith
Step-Inv (again e h) i = ground arith
Step-Inv (acquire n e h) i = ground arith
Step-Inv (rescan e h) i = ground arith
Step-Inv (rescanned e) i = ground arith
Step-Inv (set_stop e h) i = ground arith
Step-Inv (notify e) i = ground arith
Step-Inv (join e h) i = ground arith

pub Reach-Inv : {s : Threads} → Reach s → Inv s
Reach-Inv new = created-Inv
Reach-Inv (after r st) = Step-Inv st (Reach-Inv r)

-- However the threads interleave: no rescan runs beside a scan of the poller; the constructor
-- returns, and so the first rescan starts, only after the poller's first scan; and the destructor
-- returns only after the poller has left its loop, which it does only if it was told to stop.
pub threads_exclude :
    {s : Threads}
    → Reach s
    → ¬ ((s.poller ≡ scanning) × (s.owner ≡ rescanning))
      × ((s.owner ≡ acquiring) ⊎ (0 < s.scans))
      × ((s.owner ≢ joined) ⊎ (s.poller ≡ gone))
      × ((s.poller ≢ gone) ⊎ (s.stop ≡ true))
threads_exclude {s = s} r =
    let i = Reach-Inv r in
    (
      λ (e, f). ground (arith, i.poller_has, i.owner_has),
      i.constructed,
      either_joined s.owner i.joined_gone,
      either_gone s.poller i.gone_stopped,
    )
  where
    either_joined : {P : Type 0} (w : Owner) → (w ≡ joined → P) → (w ≢ joined) ⊎ P
    either_joined acquiring f = inl (λ e. cc)
    either_joined serving f = inl (λ e. cc)
    either_joined rescanning f = inl (λ e. cc)
    either_joined stopping f = inl (λ e. cc)
    either_joined joining f = inl (λ e. cc)
    either_joined joined f = inr (f refl)

    either_gone : {P : Type 0} (x : Poller) → (x ≡ gone → P) → (x ≢ gone) ⊎ P
    either_gone gone f = inr (f refl)
    either_gone starting f = inl (λ e. cc)
    either_gone locking f = inl (λ e. cc)
    either_gone scanning f = inl (λ e. cc)
    either_gone scanned f = inl (λ e. cc)
    either_gone checking f = inl (λ e. cc)
    either_gone waiting f = inl (λ e. cc)
    either_gone relocking f = inl (λ e. cc)
    either_gone woken f = inl (λ e. cc)
    either_gone testing f = inl (λ e. cc)
