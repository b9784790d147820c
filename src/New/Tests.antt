-- ===== src/New/Tests.antt =====
-- Tests of `New`, and its theorems at concrete options.
use koanf_etcd.Base.{ℕ, true, false, Option, none, some, List, [], ◌∷◌, Bytes, codes, ◌≡◌, refl}
use koanf_etcd.Errors.{
  Result, ok, err, sentinel, wrap, no_mode, option_conflict, blob_with_unflatten,
}
use koanf_etcd.Settings.{Settings, Handle, new_settings}
use koanf_etcd.Settings.Options.{Setting, with_prefix}
use koanf_etcd.New.{validate_settings, Configured, new}

abbrev string_value : Bytes → ℕ
string_value raw = 0

abbrev build : Settings ℕ → Result Handle
build s = ok 4

abbrev opts : List (Option (Setting ℕ))
unfolding with_prefix
opts = some (with_prefix (codes "/app/")) ∷ none ∷ []

abbrev blob_only : Settings ℕ
unfolding new_settings
blob_only = record new_settings { key = codes "k"; blob = true }

new_tests :
    (new string_value build [] ≡ err (sentinel no_mode))
    × (validate_settings blob_only ≡ err (wrap blob_with_unflatten (sentinel option_conflict)))
unfolding new validate_settings blob_only new_settings
new_tests = (refl, refl)

abbrev provider : Configured ℕ
unfolding new opts new_settings
provider = elim (new string_value build opts) [
  | ok c ↦ c
  | err e ↦ record { settings = new_settings; client = 0; owns_client = false }
]
