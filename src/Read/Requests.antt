-- ===== src/Read/Requests.antt =====
-- The requests of a prefix read for its pages, and what a server with one state of the store answers.
use koanf_etcd.Base.{
  ℕ, Bool, true, false, List, ◌∷◌, Bytes, take, drop, All, ◌≡◌, ap, subst, ◌∙◌, arith,
  if◌then◌else◌,
}
use koanf_etcd.Base.Int.{pos_part, is_pos}
use koanf_etcd.Errors.{ok}
use koanf_etcd.Client.{OpOption, KeyValue, in_range}
use koanf_etcd.Client.Server.{
  select, select-nul, in_scan, range_end, limit_of, limited, serve, IsSorted, select-IsSorted,
  select-All, last_key, last_key-All, behind, behind-last_key,
}
use koanf_etcd.Range.{prefix_end}
use koanf_etcd.Settings.{Settings}
use koanf_etcd.Provider.{Env}
use koanf_etcd.Read.{static_opts, page_key, page_opts}

-- Every Get is answered from the same state of the store, the present one: no key changes between
-- two pages, and WithReadRevision is not set.
abbrev pub IsSnapshot : {V : Type 0} → Env V → List KeyValue → ℕ → Type 0
IsSnapshot env store revision =
    (n : ℕ) (key : Bytes) (opts : List OpOption)
    → env.get n key opts ≡ ok (serve store revision key opts)

module _ {V : Type 0} (env : Env V) (s : Settings V) where
  -- What the requests for pages ask for.
  range_end-page_opts :
      (first : Bool) (last : Bytes)
      → range_end (page_key env s first last) (page_opts env s first) ≡ prefix_end s.prefix
  unfolding page_key page_opts static_opts
  range_end-page_opts first last = ground arith

  unfoldable pub page_limit : ℕ
  page_limit = if is_pos s.limit then pos_part s.limit else 0

  limit_of-page_opts : (first : Bool) → limit_of (page_opts env s first) ≡ page_limit
  unfolding page_opts static_opts page_limit
  limit_of-page_opts first = ground arith

  -- The entries of the store behind a page's start.
  abbrev pub IsRest : List KeyValue → Bool → Bytes → List KeyValue → Type 0
  IsRest store first last rest =
      select (in_scan (page_key env s first last) (prefix_end s.prefix)) store ≡ rest

  -- One request: the page that the server answers it with.
  pub served :
      (store : List KeyValue) (rev n : ℕ) (first : Bool) (last : Bytes) (rest : List KeyValue)
      → IsSnapshot env store rev
      → IsRest store first last rest
      → env.get n (page_key env s first last) (page_opts env s first)
        ≡ ok (limited rev page_limit rest)
  served store rev n first last rest snap r =
      snap n _ _
      ∙ (ap
            (λ e. ok (
              limited rev (limit_of (page_opts env s first))
                (select (in_scan (page_key env s first last) e) store)))
            (range_end-page_opts first last)
          ∙ (ap (λ t. ok (limited rev (limit_of (page_opts env s first)) t)) r
              ∙ ap (λ n. ok (limited rev n rest)) (limit_of-page_opts first)))

  -- The start of the next page.
  pub next-IsRest :
      (store : List KeyValue) (first : Bool) (last : Bytes) (n : ℕ) (x : KeyValue)
      (xs : List KeyValue)
      → IsSorted store
      → IsRest store first last (x ∷ xs)
      → IsRest store false (last_key x.key (take n xs)) (drop n xs)
  unfolding page_key
  next-IsRest store first last n x xs h r =
      let from = page_key env s first last in
      let to = prefix_end s.prefix in
      let key = last_key x.key (take n xs) in
      let (px, pxs) =
        subst (All (λ y. in_scan from to y ≡ true)) r (select-All (in_scan from to) store) in
      let scanned = last_key-All (λ k. in_range from to k ≡ true) x.key n xs px pxs in
      let sorted = subst IsSorted r (select-IsSorted (in_scan from to) store h) in
      select-nul from to key store (ground arith)
      ∙ (ap (select (behind key)) r ∙ behind-last_key n x xs sorted)
