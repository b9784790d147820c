-- ===== src/Read/Entries.antt =====
-- The entries of a page, transformed and put into the flat map.
use koanf_etcd.Base.{List, [], ◌∷◌, ◌++◌, Bytes, insert, ◌≡◌, refl}
use koanf_etcd.Errors.{Result, ok, err}
use koanf_etcd.Client.{KeyValue}
use koanf_etcd.Client.Server.{last_key}
use koanf_etcd.Path.{Map}
use koanf_etcd.Settings.{Settings}
use koanf_etcd.Provider.{Env}
use koanf_etcd.Read.{after, transform_kv, take_page}

module _ {V : Type 0} (env : Env V) (s : Settings V) where
  -- The transformed entries, put into the map one after the other.
  unfoldable pub all_entries : List KeyValue → Map V → Result (Map V)
  all_entries [] flat = ok flat
  all_entries (kv ∷ kvs) flat =
      after (transform_kv env s kv) (λ (path, v). all_entries kvs (insert path v flat))

  pub all_entries-append :
      (xs ys : List KeyValue) (flat : Map V)
      → all_entries (xs ++ ys) flat ≡ after (all_entries xs flat) (λ m. all_entries ys m)
  unfolding all_entries
  all_entries-append [] ys flat = refl
  all_entries-append (x ∷ xs) ys flat =
      all_entries-step (transform_kv env s x) xs ys flat (λ m. all_entries-append xs ys m)
    where
      all_entries-step :
          (r : Result (Bytes × V)) (xs ys : List KeyValue) (flat : Map V)
          → ((m : Map V)
              → all_entries (xs ++ ys) m ≡ after (all_entries xs m) (λ n. all_entries ys n))
          → after r (λ (path, v). all_entries (xs ++ ys) (insert path v flat))
            ≡ after
                (after r (λ (path, v). all_entries xs (insert path v flat)))
                (λ m. all_entries ys m)
      all_entries-step (ok (path, v)) xs ys flat ih = ih (insert path v flat)
      all_entries-step (err e) xs ys flat ih = refl

  pub take_page_lem :
      (kvs : List KeyValue) (flat : Map V) (key : Bytes)
      → take_page env s kvs flat key ≡ after (all_entries kvs flat) (λ m. ok (m, last_key key kvs))
  unfolding take_page all_entries
  take_page_lem [] flat key = refl
  take_page_lem (x ∷ xs) flat key = step (transform_kv env s x) (λ m. take_page_lem xs m x.key)
    where
      step :
          (r : Result (Bytes × V))
          → ((m : Map V)
              → take_page env s xs m x.key
                ≡ after (all_entries xs m) (λ n. ok (n, last_key x.key xs)))
          → after r (λ (path, v). take_page env s xs (insert path v flat) x.key)
            ≡ after
                (after r (λ (path, v). all_entries xs (insert path v flat)))
                (λ n. ok (n, last_key x.key xs))
      step (ok (path, v)) ih = ih (insert path v flat)
      step (err e) ih = refl
