-- ===== src/Taskauthz/Read/Roles.antt =====
-- The role names of a catalog, and the entries of a claims map (internal/tasks/readauthz).
use text.Mathlib.TextLemmas.{append_cancel_left}
use text.Mathlib.TextPositions.{eq_refl}
use nsw_srilanka.Common.{
  String, ◌==◌, eq_iff, Bool, true, false, some, List, [], ◌∷◌, ◌≡◌, sym, ap, ◌∙◌, subst, inl, inr,
  ◌↔◌, In, here, there, In-cons, is_some, str_leb, Dict, lookup, insert, lookup-insert, keys,
  Bool-cases, arith, if◌then◌else◌,
}
use nsw_srilanka.Taskauthz.{Catalog, place, sort_strings, role_names}
use nsw_srilanka.Taskauthz.Read.{claim_key, all_false}

place-In : (n k : String) (ns : List String) → In k (n ∷ ns) → In k (place n ns)
unfolding place
place-In n k [] i = i
place-In n k (m ∷ ms) i = elim (Bool-cases (str_leb n m)) [
  | inl y ↦ rw y i
  | inr x ↦ rw x (elim (In-cons i) [
    | inl e ↦ there (place-In n k ms (subst (λ j. In j (n ∷ ms)) (sym e) here))
    | inr j ↦ elim (In-cons j) [
      | inl e ↦ subst (λ j. In j (m ∷ place n ms)) (sym e) here
      | inr r ↦ there (place-In n k ms (there r))
    ]
  ])
]

In-place : (n k : String) (ns : List String) → In k (place n ns) → In k (n ∷ ns)
unfolding place
In-place n k [] i = i
In-place n k (m ∷ ms) i = elim (Bool-cases (str_leb n m)) [
  | inl y ↦ rw y at i
  | inr x ↦ elim (In-cons (rw x at i)) [
    | inl e ↦ there (subst (λ j. In j (m ∷ ms)) (sym e) here)
    | inr j ↦ elim (In-cons (In-place n k ms j)) [
      | inl e ↦ subst (λ j. In j (n ∷ m ∷ ms)) (sym e) here
      | inr r ↦ there (there r)
    ]
  ]
]

sort-In : (k : String) (ns : List String) → In k ns → In k (sort_strings ns)
unfolding sort_strings
sort-In k [] i = i
sort-In k (n ∷ ns) i = place-In n k (sort_strings ns) (elim (In-cons i) [
  | inl e ↦ subst (λ j. In j (n ∷ sort_strings ns)) (sym e) here
  | inr j ↦ there (sort-In k ns j)
])

In-sort : (k : String) (ns : List String) → In k (sort_strings ns) → In k ns
unfolding sort_strings
In-sort k [] i = i
In-sort k (n ∷ ns) i = elim (In-cons (In-place n k (sort_strings ns) i)) [
  | inl e ↦ subst (λ j. In j (n ∷ ns)) (sym e) here
  | inr j ↦ there (In-sort k ns j)
]

In-keys : {V : Type 0} (k : String) (m : Dict V) → (In k (keys m)) ↔ (is_some (lookup k m) ≡ true)
unfolding lookup
In-keys k [] = (λ i. elim i [ ], λ h. cc)
In-keys k ((j, v) ∷ m) = (
  λ i. elim (In-cons i) [
    | inl e ↦ rw e (rw (eq_refl j))
    | inr r ↦ let h = (In-keys k m).0 r in ground arith
  ],
  λ h. elim (Bool-cases (j == k)) [
    | inl e ↦ subst (λ x. In x (j ∷ keys m)) ((eq_iff j k).0 e) here
    | inr e ↦ there ((In-keys k m).1 (rw e at h))
  ],
)

-- RoleNames lists exactly the names that the catalog maps.
pub role_names-In :
    (cat : Catalog) (k : String) → (In k (role_names cat)) ↔ (is_some (lookup k cat.roles) ≡ true)
unfolding role_names
role_names-In cat k = (
  λ i. (In-keys k cat.roles).0 (In-sort k (keys cat.roles) i),
  λ h. sort-In k (keys cat.roles) ((In-keys k cat.roles).1 h),
)

key_inj : (n m : String) → claim_key n ≡ claim_key m → n ≡ m
key_inj n m h = append_cancel_left "role:" n m h

pub claim_key-eq : (n m : String) → (claim_key n == claim_key m) ≡ (n == m)
claim_key-eq n m = elim (Bool-cases (n == m)) [
  | inl y ↦ rw y ((eq_iff (claim_key n) (claim_key m)).1 (ap claim_key ((eq_iff n m).0 y)))
  | inr x ↦ elim (Bool-cases (claim_key n == claim_key m)) [
    | inr z ↦ z ∙ sym x
    | inl z ↦
        absurd
          (let e = (eq_iff n m).1 (key_inj n m ((eq_iff (claim_key n) (claim_key m)).0 z)) in cc)
  ]
]

pub claim-insert :
    (n m : String) (b : Bool) (claims : Dict Bool)
    → lookup (claim_key m) (insert (claim_key n) b claims)
      ≡ (if n == m then some b else lookup (claim_key m) claims)
claim-insert n m b claims = rw (lookup-insert, claim_key-eq n m)

pub all_false-lookup :
    (m : String) (ns : List String) → In m ns → lookup (claim_key m) (all_false ns) ≡ some false
unfolding all_false
all_false-lookup m [] i = elim i [ ]
all_false-lookup m (n ∷ ns) i = claim-insert n m false (all_false ns) ∙ elim (Bool-cases (n == m)) [
  | inl y ↦ rw y
  | inr x ↦ rw x (elim (In-cons i) [
    | inl e ↦ absurd (let k = (eq_iff n m).1 (sym e) in cc)
    | inr j ↦ all_false-lookup m ns j
  ])
]
