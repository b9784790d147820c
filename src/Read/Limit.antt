-- ===== src/Read/Limit.antt =====
-- WithLimit, which cuts a prefix read into pages, does not show in what the read returns.
use koanf_etcd.Base.{
  ℕ, ◌<◌, true, List, [], ◌∷◌, Bytes, is_empty, insert, length, ◌≡◌, refl, sym, ap, ◌∙◌, Bool-cases,
  inl, inr, arith,
}
use koanf_etcd.Base.Int.{ℤ}
use koanf_etcd.Errors.{Result, ok, err}
use koanf_etcd.Client.{KeyValue}
use koanf_etcd.Client.Server.{IsSorted}
use koanf_etcd.Path.{Map}
use koanf_etcd.Settings.{Settings}
use koanf_etcd.Provider.{State, Env}
use koanf_etcd.Read.{after, nest, transform_kv, read_ctx}
use koanf_etcd.Read.Entries.{all_entries}
use koanf_etcd.Read.Requests.{IsSnapshot}
use koanf_etcd.Read.Snapshot.{AllBytes, under, finished, snapshot_map, read_ctx_snapshot}

module _ {V : Type 0} (env : Env V) (s : Settings V) where
  abbrev pub paged : ℤ → Settings V
  paged n = record s { limit = n }

  all_entries-paged :
      (n : ℤ) (kvs : List KeyValue) (flat : Map V)
      → all_entries env (paged n) kvs flat ≡ all_entries env s kvs flat
  unfolding all_entries transform_kv
  all_entries-paged n [] flat = refl
  all_entries-paged n (kv ∷ kvs) flat =
      step (transform_kv env s kv) (λ m. all_entries-paged n kvs m)
    where
      step :
          (r : Result (Bytes × V))
          → ((m : Map V) → all_entries env (paged n) kvs m ≡ all_entries env s kvs m)
          → after r (λ (path, v). all_entries env (paged n) kvs (insert path v flat))
            ≡ after r (λ (path, v). all_entries env s kvs (insert path v flat))
      step (err e) ih = refl
      step (ok (path, v)) ih = ih (insert path v flat)

  snapshot_map-paged :
      (n : ℤ) (store : List KeyValue) → snapshot_map env (paged n) store ≡ snapshot_map env s store
  unfolding nest
  snapshot_map-paged n store =
      ap (λ r. after r (finished env s)) (all_entries-paged n (under s.prefix store) [])

  -- Against a server that answers from one state of a sorted store, and with fuel above the size of
  -- that store, a prefix read returns the same with pages of any size, and with none.
  pub read_ctx-paged :
      (n : ℤ) (store : List KeyValue) (rev : ℕ) (st : State)
      → IsSnapshot env store rev
      → IsSorted store
      → AllBytes store
      → length store < env.fuel
      → is_empty s.key ≡ true
      → (read_ctx env (paged n) st).1 ≡ (read_ctx env s st).1
  unfolding read_ctx
  read_ctx-paged n store rev st snap sorted bytes enough prefixed = elim (Bool-cases st.closed) [
    | inl shut ↦ ground arith
    | inr opened ↦ elim (Bool-cases s.blob) [
      | inl whole ↦ ground arith
      | inr nested ↦
          let (same, _) =
            read_ctx_snapshot env s store rev st snap sorted bytes enough opened nested prefixed in
          let (same_paged, _) =
            read_ctx_snapshot env (paged n) store rev st snap sorted bytes enough opened nested
              prefixed in
          same_paged ∙ (snapshot_map-paged n store ∙ sym same)
    ]
  ]
