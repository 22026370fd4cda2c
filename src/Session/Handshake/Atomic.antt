-- ===== src/Session/Handshake/Atomic.antt =====
-- Calls of `thd_enable(tid)` and `thd_disable(tid)` one after another, each as a single step, and what
-- they leave for each thread.
use sysfail.Prelude.{
  ℕ, ◌≡◌, ◌≢◌, refl, true, Option, none, some, List, [], ◌∷◌, arith, ◌⊎◌, inl, inr, ap, sym, ◌∙◌,
  if◌then◌else◌, Bool-cases, eqb, eqb_iff,
}
use sysfail.Prelude.Dict.{lookup, nat_eq}
use sysfail.Session.{
  ThdState, block, Process, Outside, Action, ok, pure, ◌>>◌, thd_enable, thd_disable,
}
use sysfail.Session.Threads.{IsLive, enabled, thd_enable_live, thd_disable_live}
use sysfail.Session.Invariant as Table
use sysfail.Session.Invariant.{thd_enable-Inv, thd_disable-Inv, enabled-Differs, disabled, ready}
use sysfail.Prelude.Lists.{is_some}
use sysfail.Track.Rounds.{All}
use sysfail.Session.Handshake.{Kind, enabling, disabling, idle, quiesced, Handshake}
use sysfail.Session.Handshake.Invariant.{last_enabled, Stage}

-- The entry in the table.
abbrev pub entry_of : Handshake → Option ThdState
entry_of s = if s.found then some (record { on = s.on; sig_coord = s.sig_coord }) else none

-- Between calls, the entry of a thread that is not past `disarm`.
pub entry_between :
    (s : Handshake)
    → Stage idle s
    → ((s.sud ≡ true) → (s.on ≡ block) ⊎ (s.main ≡ quiesced))
    → s.sud ≡ s.found
    → s.main ≢ quiesced
    → entry_of s
      ≡ (if last_enabled s.calls then some (record { on = block; sig_coord = 1 }) else none)
entry_between s (none_there, counted, last) armed sw loud = elim (Bool-cases s.found) [
  | inr f ↦ rw (sym last, f) refl
  | inl f ↦ rw (sym last, f) (ground (arith, counted, f, armed (sw ∙ f), loud))
]

-- A call, and the thread that it is for.
abbrev pub Called : Type 0
Called = Kind × ℕ

-- The calls for one thread.
abbrev pub calls_for : ℕ → List Called → List Kind
calls_for t [] = []
calls_for t ((k, j) ∷ cs) = let rest = calls_for t cs in if eqb j t then k ∷ rest else rest

module _ (o : Outside) where
  abbrev pub call_of : Called → Action (Unit {0})
  call_of (enabling, tid) = thd_enable o tid
  call_of (disabling, tid) = thd_disable o tid

  -- The calls one after another, the last one first in the list.
  unfoldable pub perform : List Called → Action (Unit {0})
  perform [] = pure
  perform (c ∷ cs) = let rest = perform cs in rest >> call_of c

  -- The thread gets its signals, and the selector picks it.
  abbrev pub IsPicked : Called → Type 0
  IsPicked c = IsLive o c.1 × (o.selector c.1 ≡ true)

  -- For each thread, the entry and the dispatch that the last call for it asks for.
  pub record IsAfter (cs : List Called) (p : Process) : Type 0 where
    pub inv : Table.Inv o p
    pub session : p.session ≡ true
    pub entries :
        (t : ℕ)
        → lookup t p.thd_st ≡ (
            if last_enabled (calls_for t cs)
            then some (record { on = block; sig_coord = 1 })
            else none)
    pub sud : (t : ℕ) → p.sud t ≡ last_enabled (calls_for t cs)

  enabled-IsAfter :
      (cs : List Called) (tid : ℕ) (p : Process)
      → IsPicked (enabling, tid)
      → IsAfter cs p
      → (p' : Process) × (thd_enable o tid p ≡ (ok tt, p')) × IsAfter ((enabling, tid) ∷ cs) p'
  unfolding thd_enable
  enabled-IsAfter cs tid p (live, picked) a = elim (Bool-cases (last_enabled (calls_for tid cs))) [
    | inl on ↦ (
      p,
      ground (arith, picked, a.entries tid, on),
      record {
        inv = a.inv;
        session = a.session;
        entries = λ t. ground (
          arith,
          a.entries t,
          on,
          eqb_iff tid t,
          ap (λ x. last_enabled (calls_for x cs)) {x = tid} {y = t},
        );
        sud = λ t. ground (
          arith,
          a.sud t,
          on,
          eqb_iff tid t,
          ap (λ x. last_enabled (calls_for x cs)) {x = tid} {y = t},
        );
      },
    )
    | inr off ↦
        let (p', q, v, e, _) = thd_enable-Inv o tid p (inl live) a.session a.inv in
        let absent : lookup tid p.thd_st ≡ none = rw off at (a.entries tid) in
        let same : enabled tid p ≡ p' =
          ap (λ x. x.1) (sym (thd_enable_live o tid p picked absent a.session live) ∙ q) in
        (
          p',
          q,
          record {
            inv = v;
            session = e;
            entries = λ t.
                ap (λ x. lookup t x.thd_st) (sym same)
                ∙ enabled-Differs o tid p t
                ∙ ground (arith, a.entries t);
            sud = λ t. ap (λ x. x.sud t) (sym same) ∙ ground (arith, a.sud t);
          },
        )
  ]

  disabled-IsAfter :
      (cs : List Called) (tid : ℕ) (p : Process)
      → IsPicked (disabling, tid)
      → IsAfter cs p
      → (p' : Process) × (thd_disable o tid p ≡ (ok tt, p')) × IsAfter ((disabling, tid) ∷ cs) p'
  unfolding thd_disable
  disabled-IsAfter cs tid p (live, picked) a = elim (Bool-cases (last_enabled (calls_for tid cs))) [
    | inr off ↦ (
      p,
      ground (arith, a.entries tid, off),
      record {
        inv = a.inv;
        session = a.session;
        entries = λ t. ground (
          arith,
          a.entries t,
          off,
          eqb_iff tid t,
          ap (λ x. last_enabled (calls_for x cs)) {x = tid} {y = t},
        );
        sud = λ t. ground (
          arith,
          a.sud t,
          off,
          eqb_iff tid t,
          ap (λ x. last_enabled (calls_for x cs)) {x = tid} {y = t},
        );
      },
    )
    | inl on ↦
        let (p', q, v, e, d, _) = thd_disable-Inv o tid p (inl live) a.session a.inv in
        let present : is_some (lookup tid p.thd_st) ≡ true = ground (arith, a.entries tid, on) in
        let same : disabled o tid p ≡ p' =
          ap (λ x. x.1)
            (sym (thd_disable_live o tid p (ready o tid p a.inv present) a.session live) ∙ q) in
        (
          p',
          q,
          record {
            inv = v;
            session = e;
            entries = λ t. d t ∙ ground (arith, a.entries t);
            sud = λ t. ap (λ x. x.sud t) (sym same) ∙ ground (arith, a.sud t);
          },
        )
  ]

  -- Calls for threads that get their signals and are picked return, and leave what the last call for
  -- each thread asks for.
  pub perform-IsAfter :
      (cs : List Called) (p : Process)
      → All IsPicked cs
      → IsAfter [] p
      → (p' : Process) × (perform cs p ≡ (ok tt, p')) × IsAfter cs p'
  unfolding perform
  perform-IsAfter [] p all a = (p, refl, a)
  perform-IsAfter ((enabling, tid) ∷ cs) p all a =
      let (p1, q1, a1) = perform-IsAfter cs p all.1 a in
      let (p2, q2, a2) = enabled-IsAfter cs tid p1 all.0 a1 in (p2, rw q1 q2, a2)
  perform-IsAfter ((disabling, tid) ∷ cs) p all a =
      let (p1, q1, a1) = perform-IsAfter cs p all.1 a in
      let (p2, q2, a2) = disabled-IsAfter cs tid p1 all.0 a1 in (p2, rw q1 q2, a2)
