-- ===== src/Trade/Cha/Steps.antt =====
-- Steps of trade/plugin_cha_persist.go that succeed, change nothing, or leave the companies alone.
use nsw_srilanka.Common.{◌≡◌, refl, sym, ◌∙◌, ap, inl, inr, ◌⊎◌}
use nsw_srilanka.Caseflow.Exec.Robust.{stmt-cases}
use nsw_srilanka.Trade.Cha.{
  Desk, ChaError, Reply, ok, permanent, retryable, Step, ◌>>=◌, and_then, no_op, call,
}

-- A step that succeeds is one that succeeds and then another.
pub then_ok :
    {A B : Type 0} (m : Step A) (k : A → Step B) (d : Desk) (b : B)
    → ((m >>= k) d).0 ≡ ok b
    → (a : A) × ((m d).0 ≡ ok a) × ((k a (m d).1).0 ≡ ok b) × ((m >>= k) d ≡ k a (m d).1)
then_ok {A = A} m k d b h = go (m d).0 refl
  where
    go :
        (r : Reply A)
        → (m d).0 ≡ r
        → (a : A) × ((m d).0 ≡ ok a) × ((k a (m d).1).0 ≡ ok b) × ((m >>= k) d ≡ k a (m d).1)
    go (ok a) e =
        (a, e, sym (ap (λ x. (and_then x k (m d).1).0) e) ∙ h, ap (λ x. and_then x k (m d).1) e)
    go (permanent x) e = cc
    go (retryable x) e = cc

-- The tables of both desks are the same.
pub record SameTables (d e : Desk) : Type 0 where
  pub companies : d.companies ≡ e.companies
  pub consignments : d.consignments ≡ e.consignments
  pub db : d.session.db ≡ e.session.db

pub SameTables-refl : (d : Desk) → SameTables d d
SameTables-refl d = record { companies = refl; consignments = refl; db = refl }

pub call-SameTables : (e : ChaError) (d : Desk) → SameTables (call e d).1 d
unfolding call
call-SameTables e d = record {
  companies = refl;
  consignments = refl;
  db = elim (stmt-cases no_op d.session) [ inl (a, b) ↦ b | inr (a, b) ↦ b ];
}

-- A step that changes no table, and one that changes none where it fails.
abbrev pub IsRead : {A : Type 0} → Step A → Type 0
IsRead {A = A} m = (d : Desk) → SameTables (m d).1 d

abbrev pub IsAtomic : {A : Type 0} → Step A → Type 0
IsAtomic {A = A} m = (d : Desk) → ((a : A) × ((m d).0 ≡ ok a)) ⊎ SameTables (m d).1 d

pub SameTables-trans : (a b c : Desk) → SameTables a b → SameTables b c → SameTables a c
SameTables-trans a b c p q = record {
  companies = p.companies ∙ q.companies;
  consignments = p.consignments ∙ q.consignments;
  db = p.db ∙ q.db;
}

pub and_then-IsAtomic :
    {A B : Type 0} (r : Reply A) (k : A → Step B)
    → ((a : A) → IsAtomic (k a))
    → IsAtomic (and_then r k)
and_then-IsAtomic (ok a) k h d = h a d
and_then-IsAtomic (permanent e) k h d = inr (SameTables-refl d)
and_then-IsAtomic (retryable e) k h d = inr (SameTables-refl d)

pub IsAtomic-after :
    {A B : Type 0} (m : Step A) (k : A → Step B)
    → IsRead m
    → ((a : A) → IsAtomic (k a))
    → IsAtomic (m >>= k)
IsAtomic-after m k read h d = elim (and_then-IsAtomic (m d).0 k h (m d).1) [
  | inl a ↦ inl a
  | inr s ↦ inr (SameTables-trans ((m >>= k) d).1 (m d).1 d s (read d))
]

-- A step that leaves the companies alone, which all of these do.
abbrev pub IsKept : {A : Type 0} → Step A → Type 0
IsKept m = (d : Desk) → (m d).1.companies ≡ d.companies

pub and_then-IsKept :
    {A B : Type 0} (r : Reply A) (k : A → Step B) → ((a : A) → IsKept (k a)) → IsKept (and_then r k)
and_then-IsKept (ok a) k h d = h a d
and_then-IsKept (permanent e) k h d = refl
and_then-IsKept (retryable e) k h d = refl

pub IsKept-after :
    {A B : Type 0} (m : Step A) (k : A → Step B)
    → IsKept m
    → ((a : A) → IsKept (k a))
    → IsKept (m >>= k)
IsKept-after m k p h d = and_then-IsKept (m d).0 k h (m d).1 ∙ p d
