-- ===== src/Read/Samples.antt =====
-- A store of five keys, a server with it, and a provider that reads three of them in three pages.
use koanf_etcd.Base.{
  true, is_empty, ℕ, false, none, some, List, [], ◌∷◌, Bytes, codes, ◌≡◌, refl, sym, ◌∙◌, arith,
}
use koanf_etcd.Base.Int.{pos}
use koanf_etcd.Errors.{ok, Error, foreign}
use koanf_etcd.Client.{KeyValue}
use koanf_etcd.Client.Server.{serve, IsSorted}
use koanf_etcd.Settings.{Settings, new_settings}
use koanf_etcd.Provider.{new_state, State, Env}
use koanf_etcd.Read.Requests.{IsSnapshot}
use koanf_etcd.Path.{Map}
use koanf_etcd.Read.{read_ctx}
use koanf_etcd.Read.Snapshot.{AllBytes, snapshot_map, read_ctx_snapshot}

abbrev pub entry : Bytes → ℕ → KeyValue
entry key n = record { key = key; value = codes "x"; mod_revision = n }

abbrev pub store : List KeyValue
store =
    entry (codes "/app") 2
    ∷ entry (codes "/app/a") 3
    ∷ entry (codes "/app/b") 6
    ∷ entry (codes "/app/c") 5
    ∷ entry (codes "/apq") 4
    ∷ []

abbrev pub world : Env Bytes
world = record {
  get = λ n key opts. ok (serve store 7 key opts);
  unflatten = λ m d. m;
  order = λ m. m;
  now = λ n. pos n;
  panics = λ n. none;
  fuel = 6;
}

unfoldable pub config : Settings Bytes
unfolding new_settings
config = record new_settings {
  prefix = codes "/app/";
  limit = pos 1;
  unflatten = false;
  key_transform = some (λ key. key);
  value_transform = some (λ key raw. ok raw);
}

abbrev pub idle : State
idle = new_state

pub snap : IsSnapshot world store 7
snap n key opts = refl

pub sorted : IsSorted store
sorted = ground arith

pub bytes : AllBytes store
bytes = ground arith

-- What a read of the provider returns.
abbrev pub found : Map Bytes
found = (codes "/app/a", codes "x") ∷ (codes "/app/b", codes "x") ∷ (codes "/app/c", codes "x") ∷ []

pub snapshot_map-found :
    (s : Settings Bytes)
    → s.blob ≡ false
    → is_empty s.key ≡ true
    → (read_ctx world s idle).1 ≡ ok found
    → snapshot_map world s store ≡ ok found
snapshot_map-found s nested prefixed read =
    sym
      (read_ctx_snapshot world s store 7 idle snap sorted bytes (omega arith) refl nested
        prefixed).0
    ∙ read

-- What a watch fails with when its revision is compacted.
abbrev pub compaction : Error
compaction = foreign (record {
  is_compacted = true;
  is_permission_denied = false;
  is_user_not_found = false;
  is_auth_failed = false;
  is_invalid_auth_token = false;
  status = none;
  id = 1;
})
