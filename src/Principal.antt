-- ===== src/Principal.antt =====
-- The authenticated caller of a request, as internal/authn/principal.go gives it to the handlers.
use nsw_srilanka.Common.{String, List}

pub data Kind : Type 0 where
  user client : Kind

pub record Principal : Type 0 where
  pub kind : Kind
  pub roles : List String
  pub client_id : String
  pub user_id : String
  pub ou_handle : String
