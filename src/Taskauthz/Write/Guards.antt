-- ===== src/Taskauthz/Write/Guards.antt =====
-- MayActOnStep against MayAct (internal/tasks/extensions/authz/authz.go).
use nsw_srilanka.Common.{
  String, Bool, true, false, List, [], ◌∷◌, ◌≡◌, refl, sym, ap, subst, ◌↔◌, inl, inr, ◌⊎◌, In, here,
  there, In-cons, Bool-cases,
}
use nsw_srilanka.Taskauthz.{Input, Catalog, Answer, ok, err}
use nsw_srilanka.Taskauthz.Write.{
  TaskRecord, may_act, Extension, guards, and_rest, step_from, may_act_on_step,
}

-- An extension of the step guards it, and every one that does lets the caller run some command.
pub record Guarded (pre : String) (cat : Catalog) (task : TaskRecord) (caller : Input)
    (xs : List Extension) : Type 0 where
  pub guard : Extension
  pub declared : In guard xs
  pub guarding : guards pre guard ≡ true
  pub each :
      (x : Extension)
      → In x xs
      → guards pre x ≡ true
      → may_act cat task caller x.properties ≡ ok true

and_rest_iff : (a b : Answer Bool) → (and_rest a b ≡ ok true) ↔ ((a ≡ ok true) × (b ≡ ok true))
unfolding and_rest
and_rest_iff (ok true) b = (λ h. (refl, h), λ h. h.1)
and_rest_iff (ok false) b = (λ h. cc, λ h. let k = h.0 in cc)
and_rest_iff (err x) b = (λ h. cc, λ h. let k = h.0 in cc)

module _ (pre : String) (cat : Catalog) (task : TaskRecord) (caller : Input) where
  abbrev Each : List Extension → Type 0
  Each xs =
      (x : Extension)
      → In x xs
      → guards pre x ≡ true
      → may_act cat task caller x.properties ≡ ok true

  abbrev Any : List Extension → Type 0
  Any xs = (x : Extension) × In x xs × (guards pre x ≡ true)

  step_sound :
      (d : Bool) (xs : List Extension)
      → step_from pre cat task caller d xs ≡ ok true
      → Each xs × ((d ≡ true) ⊎ Any xs)
  unfolding step_from
  step_sound d [] h = (λ x i g. elim i [ ], inl cc)
  step_sound d (x ∷ xs) h = elim (Bool-cases (guards pre x)) [
    | inr n ↦
        let (e, a) = step_sound d xs (rw n at h) in
        (
          λ y i g. elim (In-cons i) [
            | inl q ↦
                absurd (let k : guards pre x ≡ true = subst (λ z. guards pre z ≡ true) q g in cc)
            | inr j ↦ e y j g
          ],
          elim a [ inl q ↦ inl q | inr (y, j, g) ↦ inr (y, there j, g) ],
        )
    | inl y ↦
        let k : and_rest (may_act cat task caller x.properties)
              (step_from pre cat task caller true xs)
            ≡ ok true =
          rw y at h in
        let (p, q) = (and_rest_iff _ _).0 k in
        let (e, a) = step_sound true xs q in
        (
          λ z i g. elim (In-cons i) [
            | inl s ↦ subst (λ w. may_act cat task caller w.properties ≡ ok true) (sym s) p
            | inr j ↦ e z j g
          ],
          inr (x, here, y),
        )
  ]

  step_complete :
      (d : Bool) (xs : List Extension)
      → Each xs
      → (d ≡ true) ⊎ Any xs
      → step_from pre cat task caller d xs ≡ ok true
  unfolding step_from
  step_complete d [] e (inl q) = ap ok q
  step_complete d [] e (inr (y, j, g)) = elim j [ ]
  step_complete d (x ∷ xs) e a = elim (Bool-cases (guards pre x)) [
    | inr n ↦ rw n (
        step_complete d xs (λ y j g. e y (there j) g)
          (elim a [
            | inl q ↦ inl q
            | inr (y, j, g) ↦ elim (In-cons j) [
              | inl q ↦
                  absurd (let k : guards pre x ≡ true = subst (λ z. guards pre z ≡ true) q g in cc)
              | inr i ↦ inr (y, i, g)
            ]
          ]))
    | inl y ↦ rw y (
        (and_rest_iff _ _).1
          (e x here y, step_complete true xs (λ z j g. e z (there j) g) (inl refl)))
  ]

  -- A caller may act on a step exactly when an extension guards it and every one that does lets the
  -- caller run some command.
  pub may_act_on_step_exact :
      (xs : List Extension)
      → (may_act_on_step pre cat task caller xs ≡ ok true) ↔ Guarded pre cat task caller xs
  unfolding may_act_on_step
  may_act_on_step_exact xs = (
    λ h.
        let (e, a) = step_sound false xs h in
        elim a [
          | inl q ↦ absurd (cc)
          | inr (y, j, g) ↦ record { guard = y; declared = j; guarding = g; each = e }
        ],
    λ m. step_complete false xs m.each (inr (m.guard, m.declared, m.guarding)),
  )
