-- ===== src/Session/Invariant.antt =====
-- The invariant of the thread table, kept by `thd_enable(tid)` and `thd_disable(tid)`.
use sysfail.Prelude.{
  ℕ, ◌≡◌, refl, true, false, Option, none, some, arith, ◌||◌, ◌&&◌, if◌then◌else◌, eqb, ap, subst,
  eqb_iff, ◌⊎◌, inl, inr, Option-cases, Bool-cases,
}
use sysfail.Prelude.Dict.{lookup, erase, lookup-modify, lookup-insert, lookup-erase, nat_eq}
use sysfail.Prelude.Lists.{is_some, is_some-some}
use sysfail.Session.{
  ThdState, block, fresh_state, Process, Outside, ok, thd_enable, thd_disable, switch,
}
use sysfail.Session.Protocol.{with_count, IsReady}
use sysfail.Session.Effects.{with_entry}
use sysfail.Session.Threads.{
  IsLive, IsGone, enabled, thd_enable_live, thd_enable_gone, thd_disable_live, thd_disable_gone,
}

-- Every semaphore is at 1; the kernel's dispatch is on only in threads with an entry, so the filter
-- byte that it reads is not freed, and that byte is at BLOCK; only threads that the selector picks have entries; and the
-- kernel has no dispatch for a thread that is gone.
pub record Inv (o : Outside) (s : Process) : Type 0 where
  pub at_one : (t : ℕ) (st : ThdState) → lookup t s.thd_st ≡ some st → st.sig_coord ≡ 1
  pub backed : (t : ℕ) → s.sud t ≡ true → is_some (lookup t s.thd_st) ≡ true
  pub armed : (t : ℕ) (st : ThdState) → s.sud t ≡ true → lookup t s.thd_st ≡ some st → st.on ≡ block
  pub chosen : (t : ℕ) → is_some (lookup t s.thd_st) ≡ true → o.selector t ≡ true
  pub off_if_gone : (t : ℕ) → IsGone o t → s.sud t ≡ false

module _ (o : Outside) where
  -- Each thread either gets its signals or is gone.
  abbrev pub IsSettled : ℕ → Type 0
  IsSettled tid = IsLive o tid ⊎ IsGone o tid

  -- The table is as before but for the entry of `tid`.
  abbrev Differs : ℕ → Option ThdState → Process → Process → Type 0
  Differs tid x s s' = (t : ℕ) → lookup t s'.thd_st ≡ (if eqb tid t then x else lookup t s.thd_st)

  set-Inv :
      (tid : ℕ) (x : ThdState) (s s' : Process)
      → x.sig_coord ≡ 1
      → o.selector tid ≡ true
      → Differs tid (some x) s s'
      → (x.on ≡ block) ⊎ (s'.sud tid ≡ false)
      → ((t : ℕ) → s'.sud t ≡ true → (eqb tid t ≡ true) ⊎ (s.sud t ≡ true))
      → ((t : ℕ) → IsGone o t → s'.sud t ≡ false)
      → Inv o s
      → Inv o s'
  set-Inv tid x s s' one sel d b sud off v = record {
    at_one = λ t st e. ground (arith, d t, v.at_one t st);
    backed = λ t e. ground (arith, d t, sud t e, v.backed t);
    armed = λ t st e f.
        ground (arith, d t, b, sud t e, v.armed t st, eqb_iff tid t, ap s'.sud {x = tid} {y = t});
    chosen =
        λ t e. ground (arith, d t, eqb_iff tid t, v.chosen t, sel, ap o.selector {x = tid} {y = t});
    off_if_gone = off;
  }

  erase-Inv :
      (tid : ℕ) (s s' : Process)
      → Differs tid none s s'
      → ((t : ℕ) → s'.sud t ≡ true → (eqb tid t ≡ false) × (s.sud t ≡ true))
      → Inv o s
      → Inv o s'
  erase-Inv tid s s' d sud v = record {
    at_one = λ t st e. ground (arith, d t, v.at_one t st);
    backed = λ t e. ground (arith, d t, sud t e, v.backed t);
    armed = λ t st e f. ground (arith, d t, sud t e, v.armed t st);
    chosen = λ t e. ground (arith, d t, v.chosen t);
    off_if_gone = λ t g. ground (arith, sud t, v.off_if_gone t g, Bool-cases (s'.sud t));
  }

  pub enabled-Differs :
      (tid : ℕ) (s : Process)
      → Differs tid (some (record { on = block; sig_coord = 1 })) s (enabled tid s)
  enabled-Differs tid s t = elim (Bool-cases (eqb tid t)) [
    | inl e ↦ rw (lookup-modify, lookup-insert, e) refl
    | inr e ↦ rw (lookup-modify, lookup-insert, e) refl
  ]

  pub gone-Differs :
      (tid : ℕ) (s : Process)
      → lookup tid s.thd_st ≡ none
      → Differs tid (some fresh_state) s (with_count 1 tid (with_entry tid s))
  gone-Differs tid s absent t = elim (Bool-cases (eqb tid t)) [
    | inl e ↦ rw (lookup-modify, lookup-insert, e, absent) refl
    | inr e ↦ rw (lookup-modify, lookup-insert, e) refl
  ]

  pub ready :
      (tid : ℕ) (s : Process) → Inv o s → is_some (lookup tid s.thd_st) ≡ true → IsReady tid s
  ready tid s v h =
      let (st, e) = is_some-some _ h in record { entry = st; found = e; at_one = v.at_one tid st e }

  pub IsLive-not-IsGone : (tid : ℕ) → IsLive o tid → ¬ IsGone o tid
  IsLive-not-IsGone tid live gone = cc (live.reached, gone)

  enabled_off :
      (tid : ℕ) (s : Process)
      → IsLive o tid
      → (t : ℕ) → IsGone o t
      → Inv o s
      → (enabled tid s).sud t ≡ false
  enabled_off tid s live t gone v = elim (Bool-cases (eqb tid t)) [
    | inl e ↦ absurd (IsLive-not-IsGone t (subst (λ x. IsLive o x) ((eqb_iff tid t).0 e) live) gone)
    | inr e ↦ rw e (v.off_if_gone t gone)
  ]

  -- The process without the entry, and with the dispatch off.
  abbrev pub disabled : ℕ → Process → Process
  disabled tid s = record s { thd_st = erase tid s.thd_st; sud = switch s.sud tid false }

  -- The threads with an entry are those before and, if the selector picks it, `tid`.
  abbrev pub Joins : ℕ → Process → Process → Type 0
  Joins tid s s' =
      (t : ℕ)
      → is_some (lookup t s'.thd_st) ≡ (is_some (lookup t s.thd_st) || (eqb tid t && o.selector t))

  out-Joins : (tid : ℕ) (s : Process) → o.selector tid ≡ false → Joins tid s s
  out-Joins tid s out t =
      ground (arith, eqb_iff tid t, ap o.selector {x = tid} {y = t}, Bool-cases (o.selector t))

  found-Joins : (tid : ℕ) (s : Process) → is_some (lookup tid s.thd_st) ≡ true → Joins tid s s
  found-Joins tid s found t =
      ground (arith, eqb_iff tid t, ap (λ x. is_some (lookup x s.thd_st)) {x = tid} {y = t})

  set-Joins :
      (tid : ℕ) (x : ThdState) (s s' : Process)
      → o.selector tid ≡ true
      → Differs tid (some x) s s'
      → Joins tid s s'
  set-Joins tid x s s' sel d t = ground (arith, d t, eqb_iff tid t, ap o.selector {x = tid} {y = t})

  -- In a process with the invariant, enabling a thread that gets its signals or is gone returns
  -- with no error, so its caller is not blocked, keeps the invariant, and gives an entry to this
  -- thread, if the selector picks it, and to no other.
  pub thd_enable-Inv :
      (tid : ℕ) (s : Process)
      → IsSettled tid
      → s.session ≡ true
      → Inv o s
      → (s' : Process) × (thd_enable o tid s ≡ (ok tt, s'))
        × Inv o s'
        × (s'.session ≡ true)
        × Joins tid s s'
  unfolding thd_enable
  thd_enable-Inv tid s c e v = elim (Bool-cases (o.selector tid)) [
    | inr out ↦ (s, rw out refl, v, e, out-Joins tid s out)
    | inl sel ↦ elim (Option-cases (lookup tid s.thd_st)) [
      | inr (st, found) ↦ (s, rw (sel, found) refl, v, e, found-Joins tid s (rw found refl))
      | inl absent ↦ elim c [
        | inl live ↦ (
          enabled tid s,
          thd_enable_live o tid s sel absent e live,
          set-Inv tid _ s (enabled tid s) refl sel (enabled-Differs tid s) (inl refl)
              (λ t h. ground arith) (λ t g. enabled_off tid s live t g v) v,
          e,
          set-Joins tid _ s (enabled tid s) sel (enabled-Differs tid s),
        )
        | inr gone ↦ (
          with_count 1 tid (with_entry tid s),
          thd_enable_gone o tid s sel absent gone,
          set-Inv tid _ s _ refl sel (gone-Differs tid s absent) (inr (v.off_if_gone tid gone))
              (λ t h. inr h) v.off_if_gone v,
          e,
          set-Joins tid fresh_state s (with_count 1 tid (with_entry tid s)) sel
              (gone-Differs tid s absent),
        )
      ]
    ]
  ]

  -- Disabling such a thread does, too; afterwards the thread has no entry and its dispatch is off.
  pub thd_disable-Inv :
      (tid : ℕ) (s : Process)
      → IsSettled tid
      → s.session ≡ true
      → Inv o s
      → (s' : Process) × (thd_disable o tid s ≡ (ok tt, s'))
        × Inv o s'
        × (s'.session ≡ true)
        × Differs tid none s s'
        × (s'.sud tid ≡ false)
  unfolding thd_disable
  thd_disable-Inv tid s c e v = elim (Bool-cases (is_some (lookup tid s.thd_st))) [
    | inr out ↦ (
      s,
      ground arith,
      v,
      e,
      λ t. ground (arith, eqb_iff tid t, ap (λ x. is_some (lookup x s.thd_st)) {x = tid} {y = t}),
      ground (arith, v.backed tid, Bool-cases (s.sud tid)),
    )
    | inl found ↦ elim c [
      | inl live ↦ (
        disabled tid s,
        thd_disable_live o tid s (ready tid s v found) e live,
        erase-Inv tid s (disabled tid s) (λ t. lookup-erase tid t s.thd_st) (λ t h. ground arith) v,
        e,
        λ t. lookup-erase tid t s.thd_st,
        ground arith,
      )
      | inr gone ↦ (
        record s { thd_st = erase tid s.thd_st },
        thd_disable_gone o tid s (ready tid s v found) gone,
        erase-Inv tid s _ (λ t. lookup-erase tid t s.thd_st)
            (λ t h.
              ground (arith, eqb_iff tid t, ap s.sud {x = tid} {y = t}, v.off_if_gone tid gone))
            v,
        e,
        λ t. lookup-erase tid t s.thd_st,
        v.off_if_gone tid gone,
      )
    ]
  ]
