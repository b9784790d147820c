-- ===== src/Write/Tests.antt =====
-- The theorems on the write helpers at concrete keys.
use koanf_etcd.Base.{true, false, none, List, [], ◌∷◌, Bytes, codes, is_empty, ◌≡◌, ◌⊎◌, refl}
use koanf_etcd.Errors.{ok}
use koanf_etcd.Client.{with_prefix}
use koanf_etcd.Write.{
  Cli, allow_empty, delete_key, delete_all, put_all, put_key, put_sent, txn_sent,
}
use koanf_etcd.Write.Guards.{IsRefused, IsDeleted, allows, is_root, delete_key_lem, delete_all_lem}

abbrev cli : Cli
cli = record { put = λ k v. none; delete = λ k o. none; commit = λ kvs. ok true }

abbrev entries : List (Bytes × Bytes)
entries = (codes "/app/db", codes "x") ∷ []

delete_key_lem_example :
    ((is_empty (codes "/app") ≡ true) × IsRefused (delete_key cli (codes "/app")))
    ⊎ ((is_empty (codes "/app") ≡ false)
        × IsDeleted cli (codes "/app") [] (delete_key cli (codes "/app")))
delete_key_lem_example = delete_key_lem cli (codes "/app")

delete_all_lem_example :
    ((allows [] ≡ false) × (is_root (codes "/") ≡ true) × IsRefused (delete_all cli (codes "/") []))
    ⊎ (((allows [] ≡ true) ⊎ (is_root (codes "/") ≡ false))
        × IsDeleted cli (codes "/") (with_prefix ∷ []) (delete_all cli (codes "/") []))
delete_all_lem_example = delete_all_lem cli (codes "/") []

allow_empty_test : (delete_all cli [] (allow_empty ∷ [])).1 ≡ none
unfolding delete_all allow_empty
allow_empty_test = refl

put_tests :
    (put_all cli (λ m. m) [] ≡ ([], none))
    × (put_all cli (λ m. m) entries ≡ (txn_sent entries ∷ [], none))
    × (put_key cli (codes "k") (codes "v") ≡ (put_sent (codes "k") (codes "v") ∷ [], none))
unfolding put_all put_key
put_tests = (refl, refl, refl)
