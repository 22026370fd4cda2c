-- ===== src/Session/Teardown.antt =====
-- `~Session`: every thread that is left is disabled, and the table ends empty.
use sysfail.Prelude.{
  if_true, ℕ, ◌≡◌, refl, true, false, Option, none, some, List, [], ◌∷◌, arith, if◌then◌else◌,
  eqb_iff, ◌∙◌, sym, Bool-cases,
}
use sysfail.Prelude.Dict.{Dict, lookup, keys, nat_eq}
use sysfail.Prelude.Lists.{is_some, elem, elem-keys, eq-nil_of_none}
use sysfail.Session.{ThdState, Process, Outside, ok, disable_all, close}
use sysfail.Session.Invariant.{Inv, IsSettled, thd_disable-Inv}

module _ (o : Outside) where
  -- What the loop over `tids` leaves of the table.
  abbrev pub Without : List ℕ → Process → Process → Type 0
  Without tids s s' =
      (t : ℕ) → lookup t s'.thd_st ≡ (if elem t tids then none else lookup t s.thd_st)

  pub disable_all-Without :
      (tids : List ℕ) (s : Process)
      → ((t : ℕ) → elem t tids ≡ true → IsSettled o t)
      → s.session ≡ true
      → Inv o s
      → (s' : Process) × (disable_all o tids s ≡ (ok tt, s'))
        × Inv o s'
        × (s'.session ≡ true)
        × Without tids s s'
  unfolding disable_all elem
  disable_all-Without [] s c e v = (s, refl, v, e, λ t. refl)
  disable_all-Without (tid ∷ tids) s c e v =
      let (s1, q1, v1, e1, d1, off) =
        thd_disable-Inv o tid s (c tid (ground (arith, eqb_iff tid tid))) e v in
      let (s2, q2, v2, e2, d2) = disable_all-Without tids s1 (λ t h. c t (ground arith)) e1 v1 in
      (s2, rw q1 q2, v2, e2, λ t. ground (arith, d1 t, d2 t))

  lookup-keys :
      (t : ℕ) (m : Dict ℕ ThdState) → (if elem t (keys m) then none else lookup t m) ≡ none
  lookup-keys t m = rw (elem-keys t m) (by_option (lookup t m))
    where
      by_option : (x : Option ThdState) → (if is_some x then none else x) ≡ none
      by_option none = refl
      by_option (some st) = refl

  close_steps :
      (s s' : Process)
      → s.session ≡ true
      → disable_all o (keys s.thd_st) s ≡ (ok tt, s')
      → s'.thd_st ≡ []
      → close o s ≡ (ok tt, record s' { session = false })
  unfolding close
  close_steps s s' e q empty = if_true s.session _ _ e ∙ rw q (rw empty refl)

  -- If every thread of the table gets its signals or is gone, the destructor returns, and neither
  -- blocks nor fails its assertion: the table is empty, the global session is reset, and the kernel
  -- dispatches no thread's syscalls any more.
  pub close_clean :
      (s : Process)
      → ((t : ℕ) → is_some (lookup t s.thd_st) ≡ true → IsSettled o t)
      → s.session ≡ true
      → Inv o s
      → (s' : Process) × (close o s ≡ (ok tt, s'))
        × (s'.thd_st ≡ [])
        × (s'.session ≡ false)
        × ((t : ℕ) → s'.sud t ≡ false)
  unfolding close
  close_clean s c e v =
      let (s', q, v', e', d) =
        disable_all-Without (keys s.thd_st) s (λ t h. c t (sym (elem-keys t s.thd_st) ∙ h)) e v in
      let none_left = λ (t : ℕ). d t ∙ lookup-keys t s.thd_st in
      let empty = eq-nil_of_none s'.thd_st none_left in
      (
        record s' { session = false },
        close_steps s s' e q empty,
        empty,
        refl,
        λ t. ground (arith, v'.backed t, none_left t, Bool-cases (s'.sud t)),
      )
