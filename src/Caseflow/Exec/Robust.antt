-- ===== src/Caseflow/Exec/Robust.antt =====
-- Reasoning about sessions: a run that meets no database error is the run on a connection where
-- nothing fails, and a transaction that fails changes nothing.
use nsw_srilanka.Common.{
  Bool, true, false, List, [], ◌∷◌, ◌≡◌, refl, sym, subst, ◌∙◌, ◌⊎◌, inl, inr, arith, if◌then◌else◌,
}
use nsw_srilanka.Caseflow.Rows.{Db, Err, database}
use nsw_srilanka.Caseflow.Exec.{
  Result, ok, err, pure, raise, and_then, ◌>>=◌, ◌>>◌, Session, Tx, attempt, stmt, settle, no_op,
  with_tx, calm,
}

-- `m` meets a database error, or does what it does when nothing fails.
pub record IsRobust {A : Type 0} (m : Tx A) : Type 0 where
  pub quiet : (db : Db) → (m (calm db)).1.faults ≡ []
  pub faithful :
      (s : Session)
      → ((m s).0 ≡ err database)
        ⊎ (((m s).0 ≡ (m (calm s.db)).0) × ((m s).1.db ≡ (m (calm s.db)).1.db))

module _ {A : Type 0} where
  pub IsRobust-pure : (a : A) → IsRobust {A = A} (pure a)
  IsRobust-pure a = record { quiet = λ db. refl; faithful = λ s. inr (refl, refl) }

  pub IsRobust-raise : (e : Err) → IsRobust {A = A} (raise e)
  IsRobust-raise e = record { quiet = λ db. refl; faithful = λ s. inr (refl, refl) }

  faithful-stmt :
      (f : Db → A × Db) (db : Db) (fs : List Bool)
      → ((attempt f db fs).0 ≡ err database)
        ⊎ (((attempt f db fs).0 ≡ ok (f db).0) × ((attempt f db fs).1.db ≡ (f db).1))
  unfolding attempt
  faithful-stmt f db [] = inr (refl, refl)
  faithful-stmt f db (true ∷ r) = inl refl
  faithful-stmt f db (false ∷ r) = inr (refl, refl)

  pub IsRobust-stmt : (f : Db → A × Db) → IsRobust (stmt f)
  unfolding stmt
  IsRobust-stmt f = record { quiet = λ db. refl; faithful = λ s. faithful-stmt f s.db s.faults }

  -- A statement fails and changes nothing, or has its effect.
  pub stmt-cases :
      (f : Db → A × Db) (s : Session)
      → (((stmt f s).0 ≡ err database) × ((stmt f s).1.db ≡ s.db))
        ⊎ (((stmt f s).0 ≡ ok (f s.db).0) × ((stmt f s).1.db ≡ (f s.db).1))
  unfolding stmt
  stmt-cases f s = go s.faults
    where
      go :
          (fs : List Bool)
          → (((attempt f s.db fs).0 ≡ err database) × ((attempt f s.db fs).1.db ≡ s.db))
            ⊎ (((attempt f s.db fs).0 ≡ ok (f s.db).0) × ((attempt f s.db fs).1.db ≡ (f s.db).1))
      go [] = inr (refl, refl)
      go (true ∷ r) = inl (refl, refl)
      go (false ∷ r) = inr (refl, refl)

  pub IsRobust-if :
      (b : Bool) (m n : Tx A) → IsRobust m → IsRobust n → IsRobust (if b then m else n)
  IsRobust-if true m n rm rn = rm
  IsRobust-if false m n rm rn = rn

module _ {A B : Type 0} (f : A → Tx B) (rf : (a : A) → IsRobust (f a)) where
  quiet-and_then : (r : Result A) (s : Session) → s.faults ≡ [] → (and_then r f s).1.faults ≡ []
  quiet-and_then (err e) s h = h
  quiet-and_then (ok a) s h =
      let e : calm s.db ≡ s = λ i. record { db = s.db; faults = sym h i } in
      subst (λ (t : Session). (f a t).1.faults ≡ []) e ((rf a).quiet s.db)

  faithful-and_then :
      (r r' : Result A) (s t : Session)
      → r ≡ r'
      → s.db ≡ t.db
      → t.faults ≡ []
      → ((and_then r f s).0 ≡ err database)
        ⊎ (((and_then r f s).0 ≡ (and_then r' f t).0)
            × ((and_then r f s).1.db ≡ (and_then r' f t).1.db))
  faithful-and_then r (err e) s t p q h = rw p (inr (refl, q))
  faithful-and_then r (ok a) s t p q h =
      let e : calm s.db ≡ t = λ i. record { db = q i; faults = sym h i } in
      rw p (
        subst
          (λ (u : Session).
            ((f a s).0 ≡ err database) ⊎ (((f a s).0 ≡ (f a u).0) × ((f a s).1.db ≡ (f a u).1.db)))
          e ((rf a).faithful s))

  pub IsRobust-bind : (m : Tx A) → IsRobust m → IsRobust (m >>= f)
  IsRobust-bind m rm = record {
    quiet = λ db. quiet-and_then (m (calm db)).0 (m (calm db)).1 (rm.quiet db);
    faithful = λ s. elim (rm.faithful s) [
      | inl e ↦ inl (rw e)
      | inr h ↦
          faithful-and_then (m s).0 (m (calm s.db)).0 (m s).1 (m (calm s.db)).1 h.0 h.1
            (rm.quiet s.db)
    ];
  }

module _ {A : Type 0} where
  quiet-settle : (db : Db) (r : Result A × Session) → r.1.faults ≡ [] → (settle db r).1.faults ≡ []
  unfolding settle
  quiet-settle db (ok a, s) h = h
  quiet-settle db (err e, s) h = h

  faithful-settle :
      (db : Db) (r r' : Result A × Session)
      → (r.0 ≡ err database) ⊎ ((r.0 ≡ r'.0) × (r.1.db ≡ r'.1.db))
      → ((settle db r).0 ≡ err database)
        ⊎ (((settle db r).0 ≡ (settle db r').0) × ((settle db r).1.db ≡ (settle db r').1.db))
  unfolding settle
  faithful-settle db (ok a, s) (ok b, t) h = h
  faithful-settle db (ok a, s) (err e, t) h = ground arith
  faithful-settle db (err d, s) (ok b, t) h = ground arith
  faithful-settle db (err d, s) (err e, t) h = ground arith

  body : Tx A → Tx A
  body fn = do stmt no_op; a ← fn; stmt no_op; pure a

  body-IsRobust : (m : Tx A) → IsRobust m → IsRobust (body m)
  unfolding body
  body-IsRobust m rm =
      IsRobust-bind _
        (λ _.
          IsRobust-bind _
            (λ a. IsRobust-bind _ (λ _. IsRobust-pure a) (stmt no_op) (IsRobust-stmt no_op)) m rm)
        (stmt no_op) (IsRobust-stmt no_op)

  pub IsRobust-with_tx : (m : Tx A) → IsRobust m → IsRobust (with_tx m)
  unfolding with_tx body
  IsRobust-with_tx m rm = record {
    quiet = λ db. quiet-settle db (body m (calm db)) ((body-IsRobust m rm).quiet db);
    faithful =
        λ s. faithful-settle s.db (body m s) (body m (calm s.db)) ((body-IsRobust m rm).faithful s);
  }

  rollback-settle :
      (db : Db) (r : Result A × Session) (e : Err)
      → (settle db r).0 ≡ err e
      → (settle db r).1.db ≡ db
  unfolding settle
  rollback-settle db (ok a, s) e h = cc
  rollback-settle db (err d, s) e h = refl

  -- A transaction that reports an error has changed no table.
  pub rollback :
      (m : Tx A) (s : Session) (e : Err) → (with_tx m s).0 ≡ err e → (with_tx m s).1.db ≡ s.db
  unfolding with_tx
  rollback m s e h = rollback-settle s.db _ e h

  calm-commit :
      (db : Db) (r : Result A) (t : Session) (a : A)
      → t.faults ≡ []
      → (settle db (and_then r (λ b. do stmt no_op; pure b) t)).0 ≡ ok a
      → (r ≡ ok a) × ((settle db (and_then r (λ b. do stmt no_op; pure b) t)).1.db ≡ t.db)
  unfolding settle stmt
  calm-commit db (ok b) t a h e = ground arith
  calm-commit db (err x) t a h e = cc

  -- A transaction that succeeds has done what its body does when nothing fails.
  pub commit :
      (m : Tx A)
      → IsRobust m
      → (s : Session) (a : A) → (with_tx m s).0 ≡ ok a
      → ((m (calm s.db)).0 ≡ ok a) × ((with_tx m s).1.db ≡ (m (calm s.db)).1.db)
  commit m rm s a h = elim ((IsRobust-with_tx m rm).faithful s) [
    | inl e ↦ absurd (cc)
    | inr (e, d) ↦
        let (p, q) : ((m (calm s.db)).0 ≡ ok a)
            × ((with_tx m (calm s.db)).1.db ≡ (m (calm s.db)).1.db) =
          unfold with_tx in
          calm-commit s.db (m (calm s.db)).0 (m (calm s.db)).1 a (rm.quiet s.db) (sym e ∙ h) in
        (p, d ∙ q)
  ]

  -- A transaction keeps what its body keeps when nothing fails.
  pub with_tx_keeps :
      (P : Db → Type 0) (m : Tx A)
      → IsRobust m
      → ((db : Db) → P db → P (m (calm db)).1.db)
      → (s : Session) → P s.db
      → P (with_tx m s).1.db
  with_tx_keeps P m rm keep s h = go (with_tx m s).0 refl
    where
      go : (r : Result A) → (with_tx m s).0 ≡ r → P (with_tx m s).1.db
      go (ok a) e = subst P (sym (commit m rm s a e).1) (keep s.db h)
      go (err x) e = subst P (sym (rollback m s x e)) h
