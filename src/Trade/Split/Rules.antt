-- ===== src/Trade/Split/Rules.antt =====
-- Which rules of replacement validateReplaces (trade/plugin_hscode_split.go) accepts.
use nsw_srilanka.Common.{
  not_contains, contains_not, differ, String, ◌==◌, eq_iff, false, List, [], ◌∷◌, ◌≡◌, ◌≢◌, refl,
  sym, ap, subst, arith, contains, In, here, there, In-cons, inl, inr, ◌⊎◌, ◌↔◌, Dict,
}
use nsw_srilanka.Trade.Split.{
  Result, passed, refused, ◌>>=◌, check_others, check_rules, check_replacers, validate_replaces,
}

-- A rule says that one workflow takes the place of another.
abbrev pub Replaces : Dict (List String) → String → String → Type 0
Replaces rules wf other = (others : List String) × In (wf, others) rules × In other others

-- Rules with a single reading: nothing replaces itself, and what replaces is never replaced.
pub record IsSingle (rules : Dict (List String)) : Type 0 where
  pub named : (wf other : String) → Replaces rules wf other → other ≢ ""
  pub irreflexive : (wf : String) → ¬ (Replaces rules wf wf)
  pub flat :
      (wf : String) (others : List String)
      → In (wf, others) rules
      → (by : String) → ¬ (Replaces rules by wf)

pub then_passed :
    {A B : Type 0} {b : B} (m : Result A) (k : A → Result B)
    → (m >>= k) ≡ passed b
    → (a : A) × (m ≡ passed a) × (k a ≡ passed b)
then_passed (passed a) k h = (a, refl, h)
then_passed (refused e) k h = cc

-- What one rule adds, and when it is accepted.
others_sound :
    (wf : String) (os seen out : List String)
    → check_others wf os seen ≡ passed out
    → ((o : String) → In o os → (o ≢ "") × (o ≢ wf) × In o out)
      × ((o : String) → In o seen → In o out)
others_sound wf [] seen out h =
    (λ o m. elim m [ ], λ o m. let e : seen ≡ out = cc in subst (λ l. In o l) e m)
others_sound wf (x ∷ os) seen out h =
    let (a, b, r) : ((x == "") ≡ false)
        × ((x == wf) ≡ false)
        × (check_others wf os (x ∷ seen) ≡ passed out) =
      ground arith in
    let (each, kept) = others_sound wf os (x ∷ seen) out r in
    (
      λ o m. elim (In-cons m) [
        | inl e ↦
            subst (λ y. (y ≢ "") × (y ≢ wf) × In y out) (sym e)
              (
                λ q. let t = (eq_iff x "").1 q in cc,
                λ q. let t = (eq_iff x wf).1 q in cc,
                kept x here,
              )
        | inr n ↦ each o n
      ],
      λ o m. kept o (there m),
    )

rules_sound :
    (rules : Dict (List String)) (seen out : List String)
    → check_rules rules seen ≡ passed out
    → ((wf o : String) → Replaces rules wf o → (o ≢ "") × (o ≢ wf) × In o out)
      × ((o : String) → In o seen → In o out)
rules_sound [] seen out h =
    (λ wf o r. elim r.1 [ ], λ o m. let e : seen ≡ out = cc in subst (λ l. In o l) e m)
rules_sound ((w, os) ∷ rules) seen out h =
    let (mid, a, b) = then_passed (check_others w os seen) _ h in
    let (each, kept) = others_sound w os seen mid a in
    let (more, later) = rules_sound rules mid out b in
    (
      λ wf o r. elim (In-cons r.1) [
        | inl e ↦
            let i = subst (λ l. In o l) (ap (λ p. p.1) e) r.2 in
            let (x, y, z) = each o i in (x, subst (λ v. o ≢ v) (sym (ap (λ p. p.0) e)) y, later o z)
        | inr n ↦ more wf o (r.0, n, r.2)
      ],
      λ o m. later o (kept o m),
    )

replacers_sound :
    (rules : Dict (List String)) (out res : List String)
    → check_replacers rules out ≡ passed res
    → (wf : String) (os : List String) → In (wf, os) rules
    → ¬ (In wf out)
replacers_sound [] out res h wf os m = elim m [ ]
replacers_sound ((w, l) ∷ rules) out res h wf os m =
    let (a, b) : (contains out w ≡ false) × (check_replacers rules out ≡ passed res) =
      ground arith in
    elim (In-cons m) [
      | inl e ↦ subst (λ v. ¬ (In v out)) (sym (ap (λ p. p.0) e)) (not_contains out w a)
      | inr n ↦ replacers_sound rules out res b wf os n
    ]

others_complete :
    (wf : String) (os seen : List String)
    → ((o : String) → In o os → (o ≢ "") × (o ≢ wf))
    → (out : List String) × (check_others wf os seen ≡ passed out)
      × ((o : String) → In o out → In o os ⊎ In o seen)
others_complete wf [] seen h = (seen, refl, λ o m. inr m)
others_complete wf (x ∷ os) seen h =
    let (a, b) = h x here in
    let (out, e, from) = others_complete wf os (x ∷ seen) (λ o m. h o (there m)) in
    (
      out,
      rw (differ x "" a, differ x wf b) e,
      λ o m. elim (from o m) [
        | inl i ↦ inl (there i)
        | inr i ↦ elim (In-cons i) [
          | inl q ↦ inl (subst (λ y. In y (x ∷ os)) (sym q) here)
          | inr n ↦ inr n
        ]
      ],
    )

rules_complete :
    (rules : Dict (List String)) (seen : List String)
    → ((wf o : String) → Replaces rules wf o → (o ≢ "") × (o ≢ wf))
    → (out : List String) × (check_rules rules seen ≡ passed out)
      × ((o : String) → In o out → ((wf : String) × Replaces rules wf o) ⊎ In o seen)
rules_complete [] seen h = (seen, refl, λ o m. inr m)
rules_complete ((w, os) ∷ rules) seen h =
    let (mid, a, from) = others_complete w os seen (λ o m. h w o (os, here, m)) in
    let (out, b, later) = rules_complete rules mid (λ wf o r. h wf o (r.0, there r.1, r.2)) in
    (
      out,
      rw a b,
      λ o m. elim (later o m) [
        | inl r ↦ inl (r.0, (r.1.0, there r.1.1, r.1.2))
        | inr i ↦ elim (from o i) [ inl n ↦ inl (w, (os, here, n)) | inr n ↦ inr n ]
      ],
    )

replacers_complete :
    (rules : Dict (List String)) (out : List String)
    → ((wf : String) (os : List String) → In (wf, os) rules → ¬ (In wf out))
    → check_replacers rules out ≡ passed out
replacers_complete [] out h = refl
replacers_complete ((w, os) ∷ rules) out h =
    rw (contains_not out w (h w os here))
      (replacers_complete rules out (λ wf l m. h wf l (there m)))

-- validateReplaces accepts exactly the rules with a single reading: no workflow that is replaced has
-- an empty ID or replaces itself, and no workflow that replaces others is replaced.
pub validate_replaces_exact :
    (rules : Dict (List String))
    → ((out : List String) × (validate_replaces rules ≡ passed out)) ↔ IsSingle rules
unfolding validate_replaces
validate_replaces_exact rules = (to, from)
  where
    to : (out : List String) × (validate_replaces rules ≡ passed out) → IsSingle rules
    to (res, h) =
        let (out, a, b) = then_passed (check_rules rules []) _ h in
        let (each, kept) = rules_sound rules [] out a in
        record {
          named = λ wf o r. (each wf o r).0;
          irreflexive = λ wf r. (each wf wf r).1 refl;
          flat = λ wf os m by r. replacers_sound rules out res b wf os m ((each by wf r).2);
        }

    from : IsSingle rules → (out : List String) × (validate_replaces rules ≡ passed out)
    from s =
        let (out, a, later) =
          rules_complete rules []
            (λ wf o r. (s.named wf o r, λ e. s.irreflexive wf (subst (Replaces rules wf) e r))) in
        (
          out,
          rw a (
              replacers_complete rules out (λ wf os m i. elim (later wf i) [
                | inl r ↦ s.flat wf os m (r.0) (r.1)
                | inr n ↦ elim n [ ]
              ])),
        )
