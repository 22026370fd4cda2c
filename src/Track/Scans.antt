-- ===== src/Track/Scans.antt =====
-- What the handler's calls of one scan leave of the session's table.
use sysfail.Prelude.{
  ℕ, ◌≡◌, refl, Bool, true, not, ◌&&◌, ◌||◌, List, [], ◌∷◌, ◌++◌, arith, eqb, eqb_iff, ◌∙◌, ap, sym,
  inl, inr, Bool-cases,
}
use sysfail.Prelude.Dict.{lookup, nat_eq}
use sysfail.Prelude.Lists.{elem, is_some}
use sysfail.ThdMon.{Events, ThdMon, scan_tasks, stale}
use sysfail.ThdMon.Rounds.{is_known, marked, told-marked}
use sysfail.ThdMon.Scan.{arrival, told}
use sysfail.ThdMon.Calls.{arrivals, departures, mark-arrivals, sweep-departures, told-arrivals}
use mathlib.Core.Path.{fun_ext}
use sysfail.Session.{
  Process, Outside, Action, Result, ok, err, disable_all, thd_enable, thd_disable, next, ◌>>◌,
}
use sysfail.Session.Invariant.{Inv, IsSettled, thd_enable-Inv}
use sysfail.Session.Teardown.{disable_all-Without}
use sysfail.Track.{thd_track, track_all}

-- A block of two parts runs the second where the first returns.
next_assoc :
    {A B C : Type 0} (x : Result A × Process) (f : A → Action B) (g : B → Action C)
    → next (next x f) g ≡ next x (λ a s. next (f a s) g)
next_assoc (ok a, s) f g = refl
next_assoc (err e, s) f g = refl

arrived :
    (listing : List ℕ) (mon : ThdMon) (xs : List ℕ)
    → (marked listing mon).0 ≡ arrivals mon.gen xs
    → (t : ℕ) → elem t xs ≡ (elem t listing && not (is_known t mon))
arrived listing mon xs p t =
    sym (told-arrivals mon.gen t xs)
    ∙ ap (told t (arrival mon.gen)) (sym p)
    ∙ told-marked listing mon t

module _ (o : Outside) where
  track_all-append :
      (ev ev' : Events) (s : Process)
      → track_all o (ev ++ ev') s ≡ (track_all o ev >> track_all o ev') s
  unfolding track_all
  track_all-append [] ev' s = refl
  track_all-append ((tid, st) ∷ ev) ev' s =
      ap (next (thd_track o tid st s)) (fun_ext λ a. fun_ext λ s'. track_all-append ev ev' s')
      ∙ sym (next_assoc (thd_track o tid st s) (λ _. track_all o ev) (λ _. track_all o ev'))

  track_departures :
      (tids : List ℕ) (s : Process) → track_all o (departures tids) s ≡ disable_all o tids s
  unfolding track_all disable_all
  track_departures [] s = refl
  track_departures (tid ∷ tids) s =
      ap (next (thd_disable o tid s)) (fun_ext λ a. fun_ext λ s'. track_departures tids s')

  track_arrival : (gen tid : ℕ) (s : Process) → thd_track o tid (arrival gen) s ≡ thd_enable o tid s
  unfolding thd_track
  track_arrival gen tid s = elim (Bool-cases (eqb gen 0)) [ inl e ↦ rw e refl | inr e ↦ rw e refl ]

  -- The threads with an entry are those before and the ones of `tids` that the selector picks.
  abbrev pub With : List ℕ → Process → Process → Type 0
  With tids s s' =
      (t : ℕ)
      → is_some (lookup t s'.thd_st)
        ≡ (is_some (lookup t s.thd_st) || (elem t tids && o.selector t))

  track_arrivals :
      (gen : ℕ) (tids : List ℕ) (s : Process)
      → ((t : ℕ) → elem t tids ≡ true → IsSettled o t)
      → s.session ≡ true
      → Inv o s
      → (s' : Process) × (track_all o (arrivals gen tids) s ≡ (ok tt, s'))
        × Inv o s'
        × (s'.session ≡ true)
        × With tids s s'
  unfolding track_all elem
  track_arrivals gen [] s c e v = (s, refl, v, e, λ t. ground arith)
  track_arrivals gen (tid ∷ tids) s c e v =
      let (s1, q1, v1, e1, d1) =
        thd_enable-Inv o tid s (c tid (ground (arith, eqb_iff tid tid))) e v in
      let (s2, q2, v2, e2, d2) = track_arrivals gen tids s1 (λ t h. c t (ground arith)) e1 v1 in
      (s2, rw (track_arrival gen tid s, q1) q2, v2, e2, λ t. ground (arith, d1 t, d2 t))

  -- One scan: its arrivals get entries, and the threads that it finds gone lose theirs.
  pub track_scan :
      (listing : List ℕ) (mon : ThdMon) (gone : ℕ → Bool) (s : Process)
      → ((t : ℕ) → elem t (stale mon.gen (marked listing mon).1) ≡ gone t)
      → ((t : ℕ) → IsSettled o t)
      → s.session ≡ true
      → Inv o s
      → (s' : Process) × (track_all o (scan_tasks listing mon).0 s ≡ (ok tt, s'))
        × Inv o s'
        × (s'.session ≡ true)
        × ((t : ℕ)
            → is_some (lookup t s'.thd_st) ≡ (
                not (gone t)
                && (is_some (lookup t s.thd_st)
                    || ((elem t listing && not (is_known t mon)) && o.selector t))))
  unfolding scan_tasks
  track_scan listing mon gone s g c e v =
      let (xs, p) = mark-arrivals mon.gen listing ([], mon.known_thds) in
      let old = stale mon.gen (marked listing mon).1 in
      let (s1, q1, v1, e1, d1) = track_arrivals mon.gen xs s (λ t h. c t) e v in
      let (s2, q2, v2, e2, d2) = disable_all-Without o old s1 (λ t h. c t) e1 v1 in
      (
        s2,
        ap (λ ev. track_all o ev s)
              (sweep-departures old (marked listing mon) ∙ ap (λ ev. ev ++ departures old) p)
            ∙ track_all-append (arrivals mon.gen xs) (departures old) s
            ∙ ap (λ x. next x (λ _. track_all o (departures old))) q1
            ∙ track_departures old s1
            ∙ q2,
        v2,
        e2,
        λ t. ground (arith, d1 t, d2 t, g t, arrived listing mon xs p t),
      )
