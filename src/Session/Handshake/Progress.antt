-- ===== src/Session/Handshake/Progress.antt =====
-- A call of `thd_enable(tid)` or `thd_disable(tid)` goes on to its end, unless its signal is lost.
use sysfail.Prelude.{zero, suc, sym, ◌∙◌, ℕ, ◌≤◌, ◌<◌, ◌≡◌, ◌≢◌, refl, subst, arith, ◌⊎◌, inl, inr}
use sysfail.Session.Handshake.{
  Kind, enabling, disabling, Caller, idle, erasing, acquiring, sending, waiting, finishing,
  Delivery, no_signal, switched, lost, pending, entered, Main, running, trapped, quiesced, aborted,
  exited, Handshake, Step, insert_new, insert_again, find, find_none, acquire, send, send_fails,
  deliver, switch_on, switch_off, notify, acquire_again, release_enabled, release_disabled, erase,
  enable_self, disable_self, trap, serve, disarm, disarm_fails, rearm, exit, uncalled, Reach, here,
  after,
}
use sysfail.Session.Handshake.Invariant.{Stage, Inv, uncalled-Inv, Step-Inv, Reach-Inv}

-- How many steps of the caller and of the handler a call has before it at most.
abbrev pub left : Caller → Delivery → ℕ
left idle d = 0
left erasing d = 1
left (finishing k) d = 2
left (waiting k) no_signal = 3
left (waiting k) lost = 3
left (waiting k) switched = 4
left (waiting k) (entered j) = 5
left (waiting k) (pending j) = 6
left (sending k) d = 7
left (acquiring k) d = 8

abbrev pub steps_left : Handshake → ℕ
steps_left s = left s.caller s.delivery

-- The caller waits for a thread that has exited with the signal queued.
pub record IsLost (s : Handshake) : Type 0 where
  pub kind : Kind
  pub waits : s.caller ≡ waiting kind
  pub dropped : s.delivery ≡ lost
  pub taken : s.sig_coord ≡ 0
  pub gone : s.main ≡ exited

-- A step of the call, or of its handler, which leaves the thread's own code where it is and drops no
-- signal.
abbrev pub Advances : Handshake → Type 0
Advances s =
    (t : Handshake) × Step s t
    × (steps_left t < steps_left s)
    × (t.main ≡ s.main)
    × (t.delivery ≡ lost → s.delivery ≡ lost)

-- The call can return while the thread's own code stays where it is.
abbrev pub CanReturn : Handshake → Type 0
CanReturn s = (t : Handshake) × Reach s t × (t.caller ≡ idle) × (t.main ≡ s.main)

pub Reach-trans : {s t u : Handshake} → Reach s t → Reach t u → Reach s u
Reach-trans r here = r
Reach-trans r (after q up' st) = after (Reach-trans r q) up' st

module _ (s : Handshake) (i : Inv s) (up : s.main ≢ aborted) where
  send_step : (k : Kind) → s.caller ≡ sending k → (m : Main) → s.main ≡ m → Advances s
  send_step k e running m =
      (_, send k e (ground (arith, m)), ground (arith, e), refl, λ d. ground (arith, d))
  send_step k e trapped m =
      (_, send k e (ground (arith, m)), ground (arith, e), refl, λ d. ground (arith, d))
  send_step k e quiesced m =
      (_, send k e (ground (arith, m)), ground (arith, e), refl, λ d. ground (arith, d))
  send_step k e exited m = (_, send_fails k e m, ground (arith, e, i.stage), refl, λ d. d)
  send_step k e aborted m = absurd (up m)

  handler_step :
      (k : Kind) → s.caller ≡ waiting k → (d : Delivery) → s.delivery ≡ d → Advances s ⊎ IsLost s
  handler_step k e (pending j) q = inl (
    _,
    deliver j q (ground (arith, i.in_life, q)),
    ground (arith, e, q),
    refl,
    λ d. ground (arith, d, q),
  )
  handler_step k e (entered enabling) q =
      inl (_, switch_on q, ground (arith, e, q), refl, λ d. ground (arith, d, q))
  handler_step k e (entered disabling) q =
      inl (_, switch_off q, ground (arith, e, q), refl, λ d. ground (arith, d, q))
  handler_step k e switched q =
      inl (_, notify q, ground (arith, e, q), refl, λ d. ground (arith, d, q))
  handler_step k e no_signal q = elim (subst (λ c. Stage c s) e i.stage).2 [
    | inl (there, _) ↦ absurd (ground (arith, q, there))
    | inr (inl (_, one)) ↦
        inl (_, acquire_again k 0 e one, ground (arith, e, q), refl, λ d. ground (arith, d, q))
    | inr (inr (dropped, _, _)) ↦ absurd (ground (arith, q, dropped))
  ]
  handler_step k e lost q = elim (subst (λ c. Stage c s) e i.stage).2 [
    | inl (there, _) ↦ absurd (ground (arith, q, there))
    | inr (inl (none_there, _)) ↦ absurd (ground (arith, q, none_there))
    | inr (inr (_, taken, gone)) ↦
        inr (record { kind = k; waits = e; dropped = q; taken = taken; gone = gone })
  ]

  call_step : (c : Caller) → s.caller ≡ c → (s.caller ≡ idle) ⊎ (Advances s ⊎ IsLost s)
  call_step idle e = inl e
  call_step (acquiring k) e = inr (
      inl (
        _,
        acquire k 0 e (subst (λ c. Stage c s) e i.stage).2,
        ground (arith, e),
        refl,
        λ d. ground (arith, d),
      ))
  call_step (sending k) e = inr (inl (send_step k e s.main refl))
  call_step (waiting k) e = inr (handler_step k e s.delivery refl)
  call_step (finishing enabling) e =
      inr (inl (_, release_enabled e, ground (arith, e), refl, λ d. ground (arith, d)))
  call_step (finishing disabling) e =
      inr (inl (_, release_disabled e, ground (arith, e), refl, λ d. ground (arith, d)))
  call_step erasing e = inr (inl (_, erase e, ground (arith, e), refl, λ d. ground (arith, d)))

-- No other step takes a call back.
Step-left : {s t : Handshake} → Step s t → Inv s → (s.caller ≡ idle) ⊎ (steps_left t ≤ steps_left s)
Step-left (insert_new e f) i = inl e
Step-left (insert_again e f) i = inl e
Step-left (find e f) i = inl e
Step-left (find_none e f) i = inl e
Step-left (acquire k n e f) i = inr (ground arith)
Step-left (send k e f) i = inr (ground arith)
Step-left (send_fails k e f) i = inr (ground arith)
Step-left (deliver k e f) i = inr (ground arith)
Step-left (switch_on e) i = inr (ground arith)
Step-left (switch_off e) i = inr (ground arith)
Step-left (notify e) i = inr (ground arith)
Step-left (acquire_again k n e f) i = inr (ground arith)
Step-left (release_enabled e) i = inr (ground arith)
Step-left (release_disabled e) i = inr (ground arith)
Step-left (erase e) i = inr (ground arith)
Step-left (enable_self e f g h) i = inl g
Step-left (disable_self e f g h) i = inl g
Step-left (trap e f g h) i = inr (ground arith)
Step-left (serve e f) i = inr (ground arith)
Step-left (disarm e f g h) i = inr (ground arith)
Step-left (disarm_fails e f g h) i = inr (ground arith)
Step-left (rearm e f g) i = inr (ground arith)
Step-left (exit e f) i = inr (ground arith)

left_most : (c : Caller) (d : Delivery) → left c d ≤ 8
left_most c d = ground arith

by_step : {s : Handshake} → s.main ≢ aborted → (a : Advances s) → CanReturn a.0 → CanReturn s
by_step up (t, st, _, same, _) (u, r, e, f) = (u, Reach-trans (after here up st) r, e, f ∙ same)

returning :
    (n : ℕ) (s : Handshake)
    → steps_left s ≤ n
    → Inv s
    → s.main ≢ aborted
    → s.delivery ≢ lost
    → CanReturn s
returning zero s le i up kept = elim (call_step s i up s.caller refl) [
  | inl e ↦ (s, here, e, refl)
  | inr (inr l) ↦ absurd (kept l.dropped)
  | inr (inl (t, _, less, _, _)) ↦ absurd (omega (arith, less, le))
]
returning (suc n) s le i up kept = elim (call_step s i up s.caller refl) [
  | inl e ↦ (s, here, e, refl)
  | inr (inr l) ↦ absurd (kept l.dropped)
  | inr (inl (t, st, less, same, drops)) ↦
      by_step up (t, st, less, same, drops)
        (returning n t (omega (arith, less, le)) (Step-Inv st up i) (λ d. up (sym same ∙ d))
          (λ d. kept (drops d)))
]

-- However a call interleaves with the thread that it signals, until an assertion fails: what the call
-- has left, at most 8, is raised by no step; as long as the call has not returned, some step lowers
-- it, unless its signal was queued and the thread has exited before it was handled; and unless the
-- signal was dropped so, the call can return while the thread's own code stays where it is.
pub call_goes_on :
    {s : Handshake}
    → Reach uncalled s
    → s.main ≢ aborted
    → (steps_left s ≤ 8)
      × ((t : Handshake) → Step s t → (s.caller ≡ idle) ⊎ (steps_left t ≤ steps_left s))
      × ((s.caller ≡ idle) ⊎ (Advances s ⊎ IsLost s))
      × (s.delivery ≢ lost → CanReturn s)
call_goes_on {s} r up =
    let i = Reach-Inv uncalled-Inv r in
    (
      left_most s.caller s.delivery,
      λ t st. Step-left st i,
      call_step s i up s.caller refl,
      returning 8 s (left_most s.caller s.delivery) i up,
    )
