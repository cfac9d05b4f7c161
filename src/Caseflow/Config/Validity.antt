-- ===== src/Caseflow/Config/Validity.antt =====
-- The lists of flows that Validate of internal/caseflow/config.go accepts.
pub mod Exact
use text.Mathlib.TextPositions.{eq_refl}
use nsw_srilanka.Common.{
  String, ◌==◌, eq_iff, Bool, true, false, ◌||◌, not, List, [], ◌∷◌, ◌≡◌, refl, sym, arith,
  contains, not_contains, contains_not, Distinct, In, here, there, any-In, In-any, In-cons, subst,
  ◌≢◌, Bool-cases, inl, inr, ◌⊎◌, ◌↔◌, is_some, is_blank, Dict, lookup,
}
use nsw_srilanka.Caseflow.Config.{
  UserFlow, ClientFlow, Config, Catalog, Checked, passed, refused, require, ◌>>=◌, check_id,
  each_name, check_names, check_users, check_clients, check_columns, validate, user_ids, client_ids,
  case_column_name, is_empty, ou_handle_required,
}

-- Every name has an entry in the catalog section.
abbrev pub Defined : List String → Dict String → Type 0
Defined ns defined = (n : String) → In n ns → is_some (lookup n defined) ≡ true

pub record IsUser (cat : Catalog) (f : UserFlow) : Type 0 where
  pub id_given : is_blank f.id ≡ false
  pub label_given : is_blank f.label ≡ false
  pub roles_given : f.roles ≢ []
  pub roles_defined : Defined f.roles cat.roles

pub record IsClient (cat : Catalog) (f : ClientFlow) : Type 0 where
  pub id_given : is_blank f.id ≡ false
  pub clients_given : f.clients ≢ []
  pub clients_defined : Defined f.clients cat.clients
  pub owner_given : is_blank f.owner ≡ false
  pub owner_defined : is_some (lookup f.owner cat.roles) ≡ true

each_name_sound : (ns : List String) (d : Dict String) → each_name ns d ≡ passed tt → Defined ns d
unfolding each_name
each_name_sound [] d h n m = elim m [ ]
each_name_sound (x ∷ ns) d h n here = ground arith
each_name_sound (x ∷ ns) d h n (there m) = each_name_sound ns d (ground arith) n m

each_name_complete :
    (ns : List String) (d : Dict String) → Defined ns d → each_name ns d ≡ passed tt
unfolding each_name
each_name_complete [] d h = refl
each_name_complete (x ∷ ns) d h = rw (h x here) (each_name_complete ns d (λ n m. h n (there m)))

check_names_iff :
    (ns : List String) (d : Dict String)
    → (check_names ns d ≡ passed tt) ↔ ((ns ≢ []) × Defined ns d)
unfolding check_names
check_names_iff [] d = (λ h. cc, λ h. absurd (h.0 refl))
check_names_iff (n ∷ ns) d =
    (λ h. (λ e. cc, each_name_sound (n ∷ ns) d h), λ h. each_name_complete (n ∷ ns) d h.1)

-- The identifiers are new: none is among those seen, and none stands twice.
abbrev New : List String → List String → Type 0
New seen ids = ((k : String) → In k ids → ¬ (In k seen)) × Distinct ids

New-cons :
    (seen ids : List String) (id : String)
    → contains seen id ≡ false
    → New (id ∷ seen) ids
    → New seen (id ∷ ids)
New-cons seen ids id h n = (
  λ k m s. elim (In-cons m) [
    | inl e ↦ not_contains seen id h (subst (λ y. In y seen) e s)
    | inr r ↦ n.0 k r (there s)
  ],
  (λ m. n.0 id m here, n.1),
)

New-rest : (seen ids : List String) (id : String) → New seen (id ∷ ids) → New (id ∷ seen) ids
New-rest seen ids id n = (
  λ k m s. elim (In-cons s) [
    | inl e ↦ n.1.0 (subst (λ y. In y ids) e m)
    | inr r ↦ n.0 k (there m) r
  ],
  n.1.1,
)

check_id_iff :
    (id : String) (seen : List String)
    → (check_id id seen ≡ passed (id ∷ seen)) ↔ ((is_blank id ≡ false) × (contains seen id ≡ false))
unfolding check_id
check_id_iff id seen = ground arith

module _ (cat : Catalog) where
  users_sound :
      (fs : List UserFlow) (seen : List String)
      → check_users fs seen cat ≡ passed tt
      → ((f : UserFlow) → In f fs → IsUser cat f) × New seen (user_ids fs)
  unfolding check_users check_id
  users_sound [] seen h = (λ f m. elim m [ ], (λ k m. elim m [ ], tt))
  users_sound (f ∷ fs) seen h =
      let (id, fresh, label, names, rest) : (is_blank f.id ≡ false)
          × (contains seen f.id ≡ false)
          × (is_blank f.label ≡ false)
          × (check_names f.roles cat.roles ≡ passed tt)
          × (check_users fs (f.id ∷ seen) cat ≡ passed tt) =
        ground arith in
      let (each, new) = users_sound fs (f.id ∷ seen) rest in
      let (some_role, defined) = (check_names_iff f.roles cat.roles).0 names in
      (
        λ g m. elim (In-cons m) [
          | inl e ↦ subst (IsUser cat) (sym e) (record {
            id_given = id;
            label_given = label;
            roles_given = some_role;
            roles_defined = defined;
          })
          | inr r ↦ each g r
        ],
        New-cons seen (user_ids fs) f.id fresh new,
      )

  users_complete :
      (fs : List UserFlow) (seen : List String)
      → ((f : UserFlow) → In f fs → IsUser cat f)
      → New seen (user_ids fs)
      → check_users fs seen cat ≡ passed tt
  unfolding check_users check_id
  users_complete [] seen each new = refl
  users_complete (f ∷ fs) seen each new =
      let u = each f here in
      let fresh = contains_not seen f.id (new.0 f.id here) in
      let names = (check_names_iff f.roles cat.roles).1 (u.roles_given, u.roles_defined) in
      rw (u.id_given, fresh, u.label_given, names)
        (users_complete fs (f.id ∷ seen) (λ g m. each g (there m))
          (New-rest seen (user_ids fs) f.id new))

  clients_sound :
      (fs : List ClientFlow) (seen : List String)
      → check_clients fs seen cat ≡ passed tt
      → ((f : ClientFlow) → In f fs → IsClient cat f) × New seen (client_ids fs)
  unfolding check_clients check_id
  clients_sound [] seen h = (λ f m. elim m [ ], (λ k m. elim m [ ], tt))
  clients_sound (f ∷ fs) seen h =
      let (id, fresh, names, owner, known, rest) : (is_blank f.id ≡ false)
          × (contains seen f.id ≡ false)
          × (check_names f.clients cat.clients ≡ passed tt)
          × (is_blank f.owner ≡ false)
          × (is_some (lookup f.owner cat.roles) ≡ true)
          × (check_clients fs (f.id ∷ seen) cat ≡ passed tt) =
        ground arith in
      let (each, new) = clients_sound fs (f.id ∷ seen) rest in
      let (some_client, defined) = (check_names_iff f.clients cat.clients).0 names in
      (
        λ g m. elim (In-cons m) [
          | inl e ↦ subst (IsClient cat) (sym e) (record {
            id_given = id;
            clients_given = some_client;
            clients_defined = defined;
            owner_given = owner;
            owner_defined = known;
          })
          | inr r ↦ each g r
        ],
        New-cons seen (client_ids fs) f.id fresh new,
      )

  clients_complete :
      (fs : List ClientFlow) (seen : List String)
      → ((f : ClientFlow) → In f fs → IsClient cat f)
      → New seen (client_ids fs)
      → check_clients fs seen cat ≡ passed tt
  unfolding check_clients check_id
  clients_complete [] seen each new = refl
  clients_complete (f ∷ fs) seen each new =
      let u = each f here in
      let fresh = contains_not seen f.id (new.0 f.id here) in
      let names = (check_names_iff f.clients cat.clients).1 (u.clients_given, u.clients_defined) in
      rw (u.id_given, fresh, names, u.owner_given, u.owner_defined)
        (clients_complete fs (f.id ∷ seen) (λ g m. each g (there m))
          (New-rest seen (client_ids fs) f.id new))
