-- ===== src/Taskauthz/Write/Names.antt =====
-- The names that the rules of a task list, command by command.
use text.Mathlib.TextPositions.{eq_refl}
use nsw_srilanka.Common.{
  String, ◌==◌, eq_iff, some, List, [], ◌∷◌, ◌≡◌, sym, subst, inl, inr, In, here, there, In-cons,
  In-append, In-append_left, In-append_right, Distinct, Dict, lookup, keys, Bool-cases,
  Option-cases,
}
use nsw_srilanka.Taskauthz.Write.{all_names, names_of}

key-In : {V : Type 0} {k : String} {v : V} (m : Dict V) → In (k, v) m → In k (keys m)
key-In [] i = elim i [ ]
key-In ((j, w) ∷ m) here = here
key-In ((j, w) ∷ m) (there i) = there (key-In m i)

pub In-lookup :
    {V : Type 0} {k : String} {v : V} (m : Dict V)
    → Distinct (keys m)
    → In (k, v) m
    → lookup k m ≡ some v
unfolding lookup
In-lookup [] d i = elim i [ ]
In-lookup {k = k} ((j, w) ∷ m) d here = rw (eq_refl k)
In-lookup {k = k} ((j, w) ∷ m) d (there i) = elim (Bool-cases (j == k)) [
  | inl e ↦ absurd (d.0 (subst (λ x. In x (keys m)) (sym ((eq_iff j k).0 e)) (key-In m i)))
  | inr e ↦ rw e (In-lookup m d.1 i)
]

pub lookup-In : {V : Type 0} (k : String) (v : V) (m : Dict V) → lookup k m ≡ some v → In (k, v) m
unfolding lookup
lookup-In k v [] h = cc
lookup-In k v ((j, w) ∷ m) h = elim (Bool-cases (j == k)) [
  | inl e ↦
      let same : w ≡ v = let t : some w ≡ some v = rw e at h in cc in
      let name : j ≡ k = (eq_iff j k).0 e in
      subst (λ x. In (x, v) ((j, w) ∷ m)) name (subst (λ y. In (j, y) ((j, w) ∷ m)) same here)
  | inr e ↦ there (lookup-In k v m (rw e at h))
]

pub In-all_names :
    (n : String) (m : Dict (List String))
    → In n (all_names m)
    → (command : String) × (names : List String) × In (command, names) m × In n names
unfolding all_names
In-all_names n [] i = elim i [ ]
In-all_names n ((c, names) ∷ m) i = elim (In-append names i) [
  | inl l ↦ (c, names, here, l)
  | inr r ↦ let (d, ns, p, q) = In-all_names n m r in (d, ns, there p, q)
]

pub all_names-In :
    {n : String} (command : String) (names : List String) (m : Dict (List String))
    → In (command, names) m
    → In n names
    → In n (all_names m)
unfolding all_names
all_names-In c names [] i j = elim i [ ]
all_names-In c names ((d, ns) ∷ m) here j = In-append_left (all_names m) j
all_names-In c names ((d, ns) ∷ m) (there i) j = In-append_right ns (all_names-In c names m i j)

pub names_at :
    {n : String} (k : String) (m : Dict (List String))
    → In n (names_of (lookup k m))
    → (names : List String) × (lookup k m ≡ some names) × In n names
names_at {n} k m i = elim (Option-cases (lookup k m)) [
  | inl e ↦ absurd (let j : In n [] = rw e at i in elim j [ ])
  | inr (names, e) ↦ (names, e, rw e at i)
]

pub In-one : {n : String} {ys : List String} → In n ys → (k : String) → In k (n ∷ []) → In k ys
In-one {n} {ys} i k j = elim (In-cons j) [
  | inl e ↦ subst (λ x. In x ys) (sym e) i
  | inr x ↦ elim x [ ]
]
