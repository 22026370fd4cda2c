-- ===== src/ThdMon/Destroy.antt =====
-- The constructor and the destructor of ThdMon return: no thread waits for ever.
use sysfail.Prelude.{
  ℕ, suc, ◌+◌, ◌≤◌, ◌≡◌, ◌≢◌, refl, true, false, arith, ◌⊎◌, inl, inr, Bool-cases,
}
use sysfail.ThdMon.Threads.{
  Holder, nobody, by_poller, by_owner, Poller, starting, locking, scanning, scanned, checking,
  waiting, relocking, woken, testing, gone, Owner, acquiring, serving, rescanning, stopping,
  joining, joined, Threads, Step, start, lock, scan, announce, no_wait, wait, wake, relock,
  wait_again, wait_over, leave, again, acquire, rescan, rescanned, set_stop, notify, join, Reach,
  Steps, none_yet, then_step,
}
use sysfail.ThdMon.Exclusion.{poller_holds, is_ending, Inv, Reach-Inv, Step-Inv}

abbrev CanMove : Threads → Type 0
CanMove s = (t : Threads) × Step s t

module _ (s : Threads) (i : Inv s) where
  -- A thread that wants the mutex, or another one that has it, can move.
  owner_moves : s.holder ≡ by_owner → CanMove s
  owner_moves h = by_owner_pc s.owner refl
    where
      by_owner_pc : (w : Owner) → s.owner ≡ w → (t : Threads) × Step s t
      by_owner_pc rescanning e = (_, rescanned e)
      by_owner_pc stopping e = (_, notify e)
      by_owner_pc acquiring e = absurd (ground (arith, i.has_owner h))
      by_owner_pc serving e = absurd (ground (arith, i.has_owner h))
      by_owner_pc joining e = absurd (ground (arith, i.has_owner h))
      by_owner_pc joined e = absurd (ground (arith, i.has_owner h))

  mutex_moves : poller_holds s.poller ≡ false → (s.holder ≡ nobody → CanMove s) → CanMove s
  mutex_moves out f = by_holder s.holder refl
    where
      by_holder : (x : Holder) → s.holder ≡ x → CanMove s
      by_holder nobody h = f h
      by_holder by_poller h = absurd (ground (arith, i.has_poller h))
      by_holder by_owner h = owner_moves h

  ending_moves : s.owner ≢ joined → s.poller ≡ gone → CanMove s
  ending_moves not_joined g = by_owner_pc s.owner refl
    where
      told : is_ending s.owner ≡ true
      told = ground (arith, i.stopped, i.gone_stopped g)

      by_owner_pc : (w : Owner) → s.owner ≡ w → (t : Threads) × Step s t
      by_owner_pc stopping e = (_, notify e)
      by_owner_pc joining e = (_, join e g)
      by_owner_pc joined e = absurd (not_joined e)
      by_owner_pc acquiring e = absurd (ground (arith, told))
      by_owner_pc serving e = absurd (ground (arith, told))
      by_owner_pc rescanning e = absurd (ground (arith, told))

  moves : s.owner ≢ joined → CanMove s
  moves not_joined = by_poller_pc s.poller refl
    where
      by_poller_pc : (x : Poller) → s.poller ≡ x → (t : Threads) × Step s t
      by_poller_pc starting e = (_, start e)
      by_poller_pc locking e = mutex_moves (ground (arith, e)) λ h. (_, lock e h)
      by_poller_pc scanning e = (_, scan e)
      by_poller_pc scanned e = (_, announce e)
      by_poller_pc checking e = elim (Bool-cases s.stop) [
        | inl h ↦ (_, no_wait e h)
        | inr h ↦ (_, wait e h)
      ]
      by_poller_pc waiting e = (_, wake e)
      by_poller_pc relocking e = mutex_moves (ground (arith, e)) λ h. (_, relock e h)
      by_poller_pc woken e = (_, wait_over e)
      by_poller_pc testing e = elim (Bool-cases s.stop) [
        | inl h ↦ (_, leave e h)
        | inr h ↦ (_, again e h)
      ]
      by_poller_pc gone e = ending_moves not_joined e

-- How many steps the poller has before it at most, once it is told to stop.
abbrev left : Poller → ℕ
left starting = 9
left locking = 8
left scanning = 7
left scanned = 6
left checking = 5
left waiting = 4
left relocking = 3
left woken = 2
left testing = 1
left gone = 0

-- `n` steps after a point in `join()` with `b` steps left to the poller: it waits, or it has returned.
abbrev Joining : ℕ → ℕ → Threads → Type 0
Joining b n t = ((t.owner ≡ joining) × (n + left t.poller ≤ b)) ⊎ ((t.owner ≡ joined) × (n ≤ b + 1))

Joining-step : {t u : Threads} (b n : ℕ) → Step t u → Inv t → Joining b n t → Joining b (suc n) u
Joining-step b n (start e) i j = ground arith
Joining-step b n (lock e h) i j = ground arith
Joining-step b n (scan e) i j = ground arith
Joining-step b n (announce e) i j = ground arith
Joining-step b n (no_wait e h) i j = ground arith
Joining-step b n (wait e h) i j = ground arith
Joining-step b n (wake e) i j = ground arith
Joining-step b n (relock e h) i j = ground arith
Joining-step b n (wait_again e h) i j = ground arith
Joining-step b n (wait_over e) i j = ground arith
Joining-step b n (leave e h) i j = ground arith
Joining-step b n (again e h) i j = ground arith
Joining-step b n (acquire k e h) i j = ground arith
Joining-step b n (rescan e h) i j = ground arith
Joining-step b n (rescanned e) i j = ground arith
Joining-step b n (set_stop e h) i j = ground arith
Joining-step b n (notify e) i j = ground arith
Joining-step b n (join e h) i j = ground arith

Steps-Joining :
    {s t : Threads} {n : ℕ}
    → Steps s n t
    → Inv s
    → s.owner ≡ joining
    → Inv t × Joining (left s.poller) n t
Steps-Joining none_yet i e = (i, inl (e, omega arith))
Steps-Joining {s = s} (then_step {n = n} st step) i e =
    let (i', j) = Steps-Joining st i e in
    (Step-Inv step i', Joining-step (left s.poller) n step i' j)

-- From any point at which the owner has called `join()`, however the threads go on: there are at
-- most ten more steps, and as long as the destructor has not returned there is a next one. So it
-- returns.
pub destroy_returns :
    {s : Threads}
    → Reach s
    → s.owner ≡ joining
    → (n : ℕ) (t : Threads) → Steps s n t
    → (n ≤ 10) × ((t.owner ≡ joined) ⊎ ((u : Threads) × Step t u))
destroy_returns {s = s} r e n t st =
    let (i, j) = Steps-Joining st (Reach-Inv r) e in
    (
      ground (arith, left_most s.poller),
      elim j [
        | inr (done, _) ↦ inl done
        | inl (waits, _) ↦ inr (moves t i λ h. ground (arith, waits, h))
      ],
    )
  where
    left_most : (x : Poller) → left x ≤ 9
    left_most x = ground arith
