-- ===== src/Map/Paths.antt =====
-- The paths that the two patterns accept.
use sysfail.Prelude.{◌≡◌, ◌≢◌, refl, true, ◌↔◌, [], ◌++◌, ◌∙◌, ap}
use sysfail.Regex.Sound.{matches_iff}
use sysfail.Regex.Classes.{all, Matches-literal, Matches-star, Matches-plus, Matches-star-plus}
use sysfail.Map.{
  Bytes, codes, AddrRange, vdso_re, so_regex, vdso, libsysfail, any_char, version_char,
  alphanumeric,
}

-- The parts of the path of a libsysfail: a directory, a version, ".so", a version.
abbrev pub IsLibPath : Bytes → Type 0
IsLibPath path =
    (dir : Bytes) × (v : Bytes) × (w : Bytes) × (path
      ≡ dir ++ (codes "/libsysfail" ++ (v ++ (codes ".so" ++ w))))
    × (all any_char dir ≡ true)
    × (all version_char v ≡ true)
    × (all version_char w ≡ true)

-- `libsysfail` accepts exactly the ranges with such a path.
pub libsysfail_iff : (info : AddrRange) → (libsysfail info ≡ true) ↔ IsLibPath info.path
unfolding libsysfail
libsysfail_iff info = (to, from)
  where
    to : libsysfail info ≡ true → IsLibPath info.path
    to h =
        let (dir, r1, e1, m1, (n1, r2, e2, m2, (v, r3, e3, m3, (n2, w, e4, m4, m5)))) =
          (matches_iff so_regex info.path).0 h in
        (
          dir,
          v,
          w,
          e1
              ∙ ap (λ x. dir ++ x)
                  (e2
                    ∙ ap (λ x. x ++ r2) ((Matches-literal (codes "/libsysfail") n1).0 m2)
                    ∙ ap (λ x. codes "/libsysfail" ++ x)
                        (e3
                          ∙ ap (λ x. v ++ x)
                              (e4 ∙ ap (λ x. x ++ w) ((Matches-literal (codes ".so") n2).0 m4)))),
          (Matches-star any_char dir).0 m1,
          (Matches-star-plus version_char v).0 m3,
          (Matches-star version_char w).0 m5,
        )

    from : IsLibPath info.path → libsysfail info ≡ true
    from (dir, v, w, e, m1, m2, m3) = (matches_iff so_regex info.path).1 (
      dir,
      codes "/libsysfail" ++ (v ++ (codes ".so" ++ w)),
      e,
      (Matches-star any_char dir).1 m1,
      (
        codes "/libsysfail",
        v ++ (codes ".so" ++ w),
        refl,
        (Matches-literal (codes "/libsysfail") (codes "/libsysfail")).1 refl,
        (
          v,
          codes ".so" ++ w,
          refl,
          (Matches-star-plus version_char v).1 m2,
          (
            codes ".so",
            w,
            refl,
            (Matches-literal (codes ".so") (codes ".so")).1 refl,
            (Matches-star version_char w).1 m3,
          ),
        ),
      ),
    )

-- `vdso` accepts exactly the ranges whose path is letters and digits, one at least, in brackets.
vdso_iff :
    (info : AddrRange)
    → (vdso info ≡ true) ↔ (
        (u : Bytes) × (info.path ≡ codes "[" ++ (u ++ codes "]"))
        × (u ≢ [])
        × (all alphanumeric u ≡ true))
unfolding vdso
vdso_iff info = (
  λ h.
      let (a, r, e1, m1, (u, b, e2, m2, m3)) = (matches_iff vdso_re info.path).0 h in
      let (ne, al) = (Matches-plus alphanumeric u).0 m2 in
      (
        u,
        e1
            ∙ ap (λ x. x ++ r) ((Matches-literal (codes "[") a).0 m1)
            ∙ ap (λ x. codes "[" ++ x)
                (e2 ∙ ap (λ x. u ++ x) ((Matches-literal (codes "]") b).0 m3)),
        ne,
        al,
      ),
  λ (u, e, ne, al). (matches_iff vdso_re info.path).1 (
    codes "[",
    u ++ codes "]",
    e,
    (Matches-literal (codes "[") (codes "[")).1 refl,
    (
      u,
      codes "]",
      refl,
      (Matches-plus alphanumeric u).1 (ne, al),
      (Matches-literal (codes "]") (codes "]")).1 refl,
    ),
  ),
)
