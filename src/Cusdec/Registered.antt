-- ===== src/Cusdec/Registered.antt =====
-- The declaration of a case: GetRegisteredByCase of cusdec/repository.go.
use nsw_srilanka.Common.{
  String, ◌==◌, eq_iff, Bool, true, false, ◌&&◌, Option, none, some, List, [], ◌∷◌, ◌≡◌, sym, subst,
  inl, inr, In, here, there, In-cons, ltb, Bool-cases, Option-cases, arith, if◌then◌else◌, ◌≤◌, ap,
  ◌∙◌,
}
use nsw_srilanka.Document.{is_valid}
use nsw_srilanka.Cdn.{fails}
use nsw_srilanka.Cusdec.{
  Declaration, World, unread, row, as_found, newer, latest, get_registered_by_case,
}
use nsw_srilanka.Cusdec.Histories.{IsGood}
use nsw_srilanka.Cusdec.Histories.Rules.{is_unregistered, IsSound}

-- `d` passes, and no row that passes was submitted later.
record IsLatest (p : Declaration → Bool) (ds : List Declaration) (d : Declaration) : Type 0 where
  found : In d ds
  passes : p d ≡ true
  newest : (e : Declaration) → In e ds → p e ≡ true → e.created_at ≤ d.created_at

none_passes :
    (p : Declaration → Bool) (ds : List Declaration)
    → latest p ds ≡ none
    → (e : Declaration) → In e ds
    → p e ≡ false
unfolding latest
none_passes p [] h e m = elim m [ ]
none_passes p (d ∷ ds) h e m = elim (Bool-cases (p d)) [
  | inl y ↦ absurd (no_newer (latest p ds) (rw y at h))
  | inr n ↦ elim (In-cons m) [ inl q ↦ ap p q ∙ n | inr k ↦ none_passes p ds (rw n at h) e k ]
]
  where
    no_newer : (o : Option Declaration) → newer d o ≡ none → ⊥
    no_newer none k = cc
    no_newer (some x) k = ground arith

latest_lem :
    (p : Declaration → Bool) (ds : List Declaration) (d : Declaration)
    → latest p ds ≡ some d
    → IsLatest p ds d
unfolding latest
latest_lem p [] d h = absurd (cc)
latest_lem p (x ∷ ds) d h = elim (Bool-cases (p x)) [
  | inr n ↦
      let r = latest_lem p ds d (rw n at h) in
      record {
        found = there r.found;
        passes = r.passes;
        newest = λ e m q. elim (In-cons m) [
          | inl s ↦ absurd (let k = sym q ∙ ap p s in cc)
          | inr k ↦ r.newest e k q
        ];
      }
  | inl y ↦ elim (Option-cases (latest p ds)) [
    | inl o ↦
        let same : x ≡ d = let k : some x ≡ some d = rw (y, o) at h in cc in
        subst (IsLatest p (x ∷ ds)) same (record {
          found = here;
          passes = y;
          newest = λ e m q. elim (In-cons m) [
            | inl s ↦ let k = ap (λ (z : Declaration). z.created_at) s in omega arith
            | inr k ↦ absurd (let j = none_passes p ds o e k in cc)
          ];
        })
    | inr (z, o) ↦
        let r = latest_lem p ds z o in
        elim (Bool-cases (ltb x.created_at z.created_at)) [
          | inl b ↦
              let same : z ≡ d = let k : some z ≡ some d = rw (y, o, b) at h in cc in
              subst (IsLatest p (x ∷ ds)) same (record {
                found = there r.found;
                passes = r.passes;
                newest = λ e m q. elim (In-cons m) [
                  | inl s ↦ let k = ap (λ (z : Declaration). z.created_at) s in ground arith
                  | inr k ↦ r.newest e k q
                ];
              })
          | inr b ↦
              let same : x ≡ d = let k : some x ≡ some d = rw (y, o, b) at h in cc in
              subst (IsLatest p (x ∷ ds)) same (record {
                found = here;
                passes = y;
                newest = λ e m q. elim (In-cons m) [
                  | inl s ↦ let k = ap (λ (z : Declaration). z.created_at) s in omega arith
                  | inr k ↦ let j = r.newest e k q in ground arith
                ];
              })
        ]
  ]
]

registered_status :
    (d : Declaration) → IsSound d → ltb 0 d.ref.number ≡ true → is_unregistered d.status ≡ false
registered_status d sd n = elim (Bool-cases (is_unregistered d.status)) [
  | inl y ↦ absurd (let z = sd.unregistered y in ground arith)
  | inr x ↦ x
]

-- In a table that histories can leave, the declaration found for a case is a registered one of that
-- case, with its full reference, and no registered one of the case was submitted after it.
pub registered_by_case_lem :
    {Engine : Type 0} (case_id : String) (w : World Engine) (d : Declaration)
    → IsGood w.declarations
    → (get_registered_by_case case_id w).0 ≡ row d
    → In d w.declarations
      × (d.case_id ≡ case_id)
      × (is_unregistered d.status ≡ false)
      × (is_valid d.ref ≡ true)
      × ((e : Declaration)
          → In e w.declarations
          → e.case_id ≡ case_id
          → is_unregistered e.status ≡ false
          → e.created_at ≤ d.created_at)
unfolding get_registered_by_case
registered_by_case_lem case_id w d g h =
    let p : Declaration → Bool = λ x. (x.case_id == case_id) && ltb 0 x.ref.number in
    let r = latest_lem p w.declarations d (found (fails w.faults) (latest p w.declarations) h) in
    let q = r.passes in
    let (a, b) : ((d.case_id == case_id) ≡ true) × (ltb 0 d.ref.number ≡ true) = ground arith in
    let k = registered_status d (g.sound d r.found) b in
    (
      r.found,
      (eq_iff d.case_id case_id).0 a,
      k,
      (g.sound d r.found).registered k,
      λ e m c u.
          let v = (g.sound e m).registered u in
          r.newest e m (let j = (eq_iff e.case_id case_id).1 c in ground arith),
    )
  where
    found :
        (b : Bool) (o : Option Declaration)
        → (if b then unread else as_found o) ≡ row d
        → o ≡ some d
    found true o k = absurd (cc)
    found false none k = absurd (cc)
    found false (some x) k = cc
