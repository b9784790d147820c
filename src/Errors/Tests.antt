-- ===== src/Errors/Tests.antt =====
-- Tests of the classifiers.
use koanf_etcd.Base.{false, some, none, ◌≡◌, refl}
use koanf_etcd.Errors.{
  Error, unauthenticated, foreign, auth, transient, is_fatal_rpc_error, classify_watch_error,
}

abbrev rejected : Error
rejected = foreign (record {
  is_compacted = false;
  is_permission_denied = false;
  is_user_not_found = false;
  is_auth_failed = false;
  is_invalid_auth_token = false;
  status = some unauthenticated;
  id = 1;
})

rejected_tests :
    (classify_watch_error (some rejected) ≡ auth) × (classify_watch_error none ≡ transient)
unfolding classify_watch_error is_fatal_rpc_error
rejected_tests = (refl, refl)
