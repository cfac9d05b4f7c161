-- ===== src/Caseflow/Config/Validity/Exact.antt =====
-- What Validate of internal/caseflow/config.go accepts.
use nsw_srilanka.Common.{
  String, eq_iff, Bool, true, false, ◌||◌, not, [], ◌∷◌, ◌≡◌, refl, arith, Distinct, In, here,
  there, ◌⊎◌, ◌↔◌, is_blank, Dict,
}
use nsw_srilanka.Caseflow.Config.{
  UserFlow, ClientFlow, Config, Catalog, Checked, passed, refused, require, ◌>>=◌, check_users,
  check_columns, validate, user_ids, client_ids, case_column_name, is_empty, ou_handle_required,
}
use nsw_srilanka.Caseflow.Config.Validity.{
  IsUser, IsClient, users_sound, users_complete, clients_sound, clients_complete,
}

-- A config that starts nobody's flow by mistake.
pub record IsValid (valid_pointer : String → Bool) (c : Config) (cat : Catalog) : Type 0 where
  pub users : (f : UserFlow) → In f c.users.workflows → IsUser cat f
  pub user_ids_distinct : Distinct (user_ids c.users.workflows)
  pub ou_given : (c.clients.workflows ≡ []) ⊎ (is_blank c.clients.ou_handle ≡ false)
  pub columns :
      (column pointer : String)
      → In (column, pointer) c.clients.case_columns
      → (column ≡ case_column_name) × (valid_pointer pointer ≡ true)
  pub clients : (f : ClientFlow) → In f c.clients.workflows → IsClient cat f
  pub client_ids_distinct : Distinct (client_ids c.clients.workflows)

columns_sound :
    (vp : String → Bool) (cs : Dict String)
    → check_columns vp cs ≡ passed tt
    → (column pointer : String) → In (column, pointer) cs
    → (column ≡ case_column_name) × (vp pointer ≡ true)
unfolding check_columns
columns_sound vp [] h c p m = elim m [ ]
columns_sound vp ((c', p') ∷ cs) h c p here = ground (arith, eq_iff c' case_column_name)
columns_sound vp ((c', p') ∷ cs) h c p (there m) = columns_sound vp cs (ground arith) c p m

columns_complete :
    (vp : String → Bool) (cs : Dict String)
    → ((column pointer : String)
        → In (column, pointer) cs
        → (column ≡ case_column_name) × (vp pointer ≡ true))
    → check_columns vp cs ≡ passed tt
unfolding check_columns
columns_complete vp [] h = refl
columns_complete vp ((c, p) ∷ cs) h =
    let (e, v) = h c p here in
    rw ((eq_iff c case_column_name).1 e, v) (columns_complete vp cs (λ d q m. h d q (there m)))

then_passed :
    (m k : Checked (Unit {0})) → (m >>= λ _. k) ≡ passed tt → (m ≡ passed tt) × (k ≡ passed tt)
then_passed (passed tt) k h = (refl, h)
then_passed (refused e) k h = cc

-- Validate accepts exactly the configs whose flows are each listed once, under an identifier, and
-- startable by somebody whom the catalog names, with what their kind needs besides.
pub validate_exact :
    (vp : String → Bool) (c : Config) (cat : Catalog)
    → (validate vp c cat ≡ passed tt) ↔ IsValid vp c cat
unfolding validate
validate_exact vp c cat = (to, from)
  where
    ou : Bool
    ou = is_empty c.clients.workflows || not (is_blank c.clients.ou_handle)

    to : validate vp c cat ≡ passed tt → IsValid vp c cat
    to h =
        let (u, h1) = then_passed (check_users c.users.workflows [] cat) _ h in
        let (o, h2) = then_passed (require ou ou_handle_required) _ h1 in
        let (k, l) = then_passed (check_columns vp c.clients.case_columns) _ h2 in
        let (users, new) = users_sound cat c.users.workflows [] u in
        let (clients, new') = clients_sound cat c.clients.workflows [] l in
        record {
          users = users;
          user_ids_distinct = new.1;
          ou_given = ground arith;
          columns = columns_sound vp c.clients.case_columns k;
          clients = clients;
          client_ids_distinct = new'.1;
        }

    from : IsValid vp c cat → validate vp c cat ≡ passed tt
    from v =
        let o : require ou ou_handle_required ≡ passed tt = ground (arith, v.ou_given) in
        rw
          (
            users_complete cat c.users.workflows [] v.users
                (λ k m s. elim s [ ], v.user_ids_distinct),
            o,
            columns_complete vp c.clients.case_columns v.columns,
          )
          (clients_complete cat c.clients.workflows [] v.clients
            (λ k m s. elim s [ ], v.client_ids_distinct))
