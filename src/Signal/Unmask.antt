-- ===== src/Signal/Unmask.antt =====
-- What the constructor of ActiveSession leaves of the signal table.
use sysfail.Prelude.{
  ℕ, zero, suc, ◌+◌, ◌<◌, ◌≡◌, refl, Bool, true, false, not, ◌&&◌, ◌||◌, if◌then◌else◌, eqb, ltb,
  leb, arith, ◌∙◌, Bool-cases, inl, inr, subst, eqb_iff,
}
use sysfail.Signal.Table.{
  sigsys, sigkill, sigstop, Handler, on_sigsys, on_rearm, on_enable, on_disable, SigAction, Table,
  delete, replace, unmask_sigsys, unmask_from, installed, enable_handler, install,
}

module _ (accepts : ℕ → Bool) where
  -- The signals that the loop writes: those of its range that are accepted, SIGKILL and SIGSTOP left
  -- out.
  abbrev pub touched : ℕ → ℕ → ℕ → Bool
  touched n i j = (leb i j && ltb j (i + n)) && (accepts j && not (eqb j sigkill || eqb j sigstop))

  abbrev pub unmasked : SigAction → SigAction
  unmasked a = record a { sa_mask = delete sigsys a.sa_mask }

  abbrev step : ℕ → Table → Table
  step i t = if eqb i sigkill || eqb i sigstop then t else unmask_sigsys accepts i t

  step_self : (i : ℕ) (t : Table) → step i t i ≡ (if touched 1 i i then unmasked (t i) else t i)
  unfolding unmask_sigsys
  step_self i t = ground (arith, eqb_iff i i)

  step_lem : (i j : ℕ) (t : Table) → step i t j ≡ (if touched 1 i j then unmasked (t j) else t j)
  unfolding unmask_sigsys
  step_lem i j t = elim (Bool-cases (eqb i j)) [
    | inl e ↦
        subst (λ x. step i t x ≡ (if touched 1 i x then unmasked (t x) else t x))
          ((eqb_iff i j).0 e) (step_self i t)
    | inr e ↦ ground arith
  ]

  unmask_from_lem :
      (n i j : ℕ) (t : Table)
      → unmask_from accepts n i t j ≡ (if touched n i j then unmasked (t j) else t j)
  unfolding unmask_from
  unmask_from_lem zero i j t = ground arith
  unmask_from_lem (suc n) i j t =
      unmask_from_lem n (i + 1) j (step i t) ∙ rw (step_lem i j t) (ground arith)

  -- The action that a handler of the session gets.
  abbrev pub catching : Handler → SigAction
  catching hdlr = record {
    sa_sigaction = hdlr;
    sa_mask = λ i. false;
    sa_flags = record { siginfo = true; nodefer = true; onstack = true; restart = false };
  }

  -- The table that the constructor should leave: four signals have the session's handlers, and from
  -- the masks of the others SIGSYS is taken out, as far as the kernel lets it.
  abbrev pub expected : ℕ → Table → Table
  expected sigrtmin t i =
      if eqb i sigsys
      then catching on_sigsys
      else if eqb i (sigrtmin + 4)
      then catching on_enable
      else if eqb i (sigrtmin + 5)
      then catching on_disable
      else if eqb i (sigrtmin + 6)
      then catching on_rearm
      else if touched 64 1 i
      then unmasked (t i)
      else t i

  enable_ok :
      (s : ℕ) (hdlr : Handler) (t : Table)
      → accepts s ≡ true
      → enable_handler accepts s hdlr t ≡ installed (replace s (catching hdlr) t)
  unfolding enable_handler
  enable_ok s hdlr t h = rw h refl

  mask_clear :
      (rt : ℕ) (t : Table) (i : ℕ) → (touched 64 1 i && (expected rt t i).sa_mask sigsys) ≡ false
  mask_clear rt t i = ground arith

  -- If real-time signals stand above SIGSYS and sigaction(2) takes the four signals, the
  -- constructor throws nothing, every signal has the action that it should, and no handler of a
  -- signal that sigaction(2) takes, other than SIGKILL and SIGSTOP, has SIGSYS blocked.
  pub install_lem :
      (sigrtmin : ℕ) (t : Table)
      → sigsys < sigrtmin
      → accepts sigsys ≡ true
      → accepts (sigrtmin + 4) ≡ true
      → accepts (sigrtmin + 5) ≡ true
      → accepts (sigrtmin + 6) ≡ true
      → (t' : Table) × (install accepts sigrtmin t ≡ installed t')
        × ((i : ℕ) → t' i ≡ expected sigrtmin t i)
        × ((i : ℕ) → (touched 64 1 i && (t' i).sa_mask sigsys) ≡ false)
  unfolding install
  install_lem rt t lt a0 a4 a5 a6 =
      let t0 = unmask_from accepts 64 1 t in
      let t1 = replace sigsys (catching on_sigsys) t0 in
      let t2 = replace (rt + 6) (catching on_rearm) t1 in
      let t3 = replace (rt + 4) (catching on_enable) t2 in
      let t4 = replace (rt + 5) (catching on_disable) t3 in
      let full : (i : ℕ) → t4 i ≡ expected rt t i = λ i. ground (arith, unmask_from_lem 64 1 i t) in
      (
        t4,
        rw (enable_ok sigsys on_sigsys t0 a0) (
            rw (enable_ok (rt + 6) on_rearm t1 a6)
              (rw (enable_ok (rt + 4) on_enable t2 a4) (enable_ok (rt + 5) on_disable t3 a5))),
        full,
        λ i. rw (full i) (mask_clear rt t i),
      )
