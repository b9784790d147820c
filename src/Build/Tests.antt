-- ===== src/Build/Tests.antt =====
-- Tests of the client's construction, and its theorems at concrete settings.
use koanf_etcd.Base.{ℕ, false, Option, none, some, List, [], ◌∷◌, Bytes, codes, ◌≡◌, ◌⊎◌, refl}
use koanf_etcd.Base.Int.{pos}
use koanf_etcd.Errors.{ok, err, plain, no_valid_certs}
use koanf_etcd.Settings.{new_settings}
use koanf_etcd.Settings.Options.{Setting, with_prefix, with_auto_sync}
use koanf_etcd.New.{Configured, new}
use koanf_etcd.Build.{
  Srv, ClientConfig, World, endpoint, trim_dot, load_tls_from_files, lookup_srv_endpoints,
  build_client,
}
use koanf_etcd.Build.Endpoint.{last_colon, number, endpoint_lem}
use koanf_etcd.Build.Config.{IsConfigured, new-build_client}

abbrev record_a : Srv
record_a = record { target = codes "etcd1.example.com."; port = 2379 }

abbrev world : World
world = record {
  load_key_pair = λ cert key. ok 5;
  read_file = λ name. ok [];
  pool_of = λ text. none;
  lookup_srv = λ service proto domain. ok (record_a ∷ []);
  new_client = λ cfg. ok 6;
}

endpoint_tests :
    (endpoint record_a ≡ codes "etcd1.example.com:2379")
    × (lookup_srv_endpoints world [] [] [] ≡ ok (codes "etcd1.example.com:2379" ∷ []))
    × (load_tls_from_files world [] [] (codes "ca.pem") ≡ err (plain no_valid_certs))
unfolding endpoint lookup_srv_endpoints load_tls_from_files
endpoint_tests = (refl, refl, refl)

endpoint_lem_example :
    (p : Bytes) × (last_colon (endpoint record_a) ≡ some (trim_dot (codes "etcd1.example.com."), p))
    × (number 0 p ≡ 2379)
endpoint_lem_example = endpoint_lem record_a

abbrev string_value : Bytes → ℕ
string_value raw = 0

abbrev opts : List (Option (Setting ℕ))
unfolding with_prefix with_auto_sync
opts = some (with_prefix (codes "/app/")) ∷ some (with_auto_sync (pos 0)) ∷ []

abbrev provider : Configured ℕ
unfolding new opts new_settings build_client
provider = elim (new string_value (build_client world) opts) [
  | ok c ↦ c
  | err e ↦ record { settings = new_settings; client = 0; owns_client = false }
]

new-opts : new string_value (build_client world) opts ≡ ok provider
unfolding new opts new_settings build_client provider
new-opts = refl

new-build_client_example :
    (provider.owns_client ≡ false)
    ⊎ ((cfg : ClientConfig) × IsConfigured world provider.settings cfg
        × (world.new_client cfg ≡ ok provider.client))
new-build_client_example = new-build_client world string_value opts provider new-opts
