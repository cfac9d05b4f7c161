-- ===== src/Retry/Pending.antt =====
-- That asycuda/retry.go runs one retry of a callback at a time.
use text.Mathlib.TextPositions.{eq_refl}
use nsw_srilanka.Common.{
  String, ◌==◌, Bool, false, not, List, [], ◌∷◌, ◌≡◌, inl, inr, In, In-any, In-keep, keep, contains,
  Distinct, Bool-cases,
}
use nsw_srilanka.Retry.{Callback, key_of, schedule, release}

pub data Event : Type 0 where
  held : Callback → Event
  over : String → Event

abbrev pub step : (String → String) → Event → List String → List String
step digest (held cb) pending = (schedule digest cb pending).0
step digest (over key) pending = release key pending

abbrev pub steps : (String → String) → List Event → List String → List String
steps digest [] pending = pending
steps digest (e ∷ es) pending = steps digest es (step digest e pending)

keep-Distinct : (p : String → Bool) (xs : List String) → Distinct xs → Distinct (keep p xs)
keep-Distinct p [] d = d
keep-Distinct p (x ∷ xs) d = elim (Bool-cases (p x)) [
  | inl y ↦ rw y (λ m. d.0 (In-keep p xs m).0, keep-Distinct p xs d.1)
  | inr n ↦ rw n (keep-Distinct p xs d.1)
]

step-Distinct :
    (digest : String → String) (e : Event) (ks : List String)
    → Distinct ks
    → Distinct (step digest e ks)
unfolding schedule release
step-Distinct digest (over key) ks d = keep-Distinct (λ k. not (k == key)) ks d
step-Distinct digest (held cb) ks d = elim (Bool-cases (contains ks (key_of digest cb))) [
  | inl y ↦ rw (y, Distinct) d
  | inr n ↦
      rw (n, Distinct)
        (λ m. let q = In-any (λ x. x == key_of digest cb) m (eq_refl (key_of digest cb)) in cc, d)
]

-- Over any deliveries and ends of retries, no callback has two retries running; one that is delivered
-- while its retry runs starts none and leaves the retries as they are.
pub held_once :
    (digest : String → String) (es : List Event) (cb : Callback)
    → Distinct (steps digest es [])
      × (In (key_of digest cb) (steps digest es [])
          → schedule digest cb (steps digest es []) ≡ (steps digest es [], false))
unfolding schedule
held_once digest es cb =
    (go es [] tt, λ m. rw (In-any (λ x. x == key_of digest cb) m (eq_refl (key_of digest cb))))
  where
    go : (es : List Event) (ks : List String) → Distinct ks → Distinct (steps digest es ks)
    go [] ks d = d
    go (e ∷ es) ks d = go es (step digest e ks) (step-Distinct digest e ks d)
