-- ===== src/Read/Pages.antt =====
-- The pages of a prefix read, against a server that answers from one state of the store.
use koanf_etcd.Base.{
  take-drop, take_all, length-drop, ℕ, zero, suc, ◌<◌, Bool, true, false, ◌&&◌, List, [], ◌∷◌,
  Bytes, length, take, drop, ltb, ◌≡◌, inl, inr, refl, sym, ap, ◌∙◌, arith, Bool-cases,
  if◌then◌else◌,
}
use koanf_etcd.Base.Int.{pos_part, is_pos}
use koanf_etcd.Errors.{Result, ok, err, Site, plain, more_with_empty_page, or_wrap}
use koanf_etcd.Client.{KeyValue, GetResponse}
use koanf_etcd.Client.Server.{limited, IsSorted, last_key}
use koanf_etcd.Path.{Map}
use koanf_etcd.Settings.{Settings}
use koanf_etcd.Provider.{State, Env}
use koanf_etcd.Read.Requests.{IsSnapshot, page_limit, IsRest, served, next-IsRest}
use koanf_etcd.Read.Entries.{all_entries, all_entries-append, take_page_lem}
use koanf_etcd.Read.{M, pass, fail, give, after, is_nil, get, take_page, page_key, page_opts, pages}

module _ {V : Type 0} (env : Env V) (s : Settings V) where
  -- What one page leads to.
  after_page : ℕ → GetResponse → State → Result (Map V × Bytes) → Result (ℕ × Map V)
  after_page fuel resp st (err e) = err e
  after_page fuel resp st (ok (flat, key)) =
      if resp.more && is_nil resp.kvs
      then err (plain (more_with_empty_page s.prefix))
      else if resp.more && is_pos s.limit
      then (pages env s fuel false key flat st).1
      else ok (resp.revision, flat)

  -- The rest of a round of the loop, from the transformed page.
  abbrev pub rest_of_page : ℕ → GetResponse → Map V × Bytes → M (ℕ × Map V)
  rest_of_page fuel resp x =
      if resp.more && is_nil resp.kvs
      then fail (plain (more_with_empty_page s.prefix))
      else if resp.more && is_pos s.limit
      then pages env s fuel false x.1 x.0
      else give (resp.revision, x.0)

  rest_of_page_lem :
      (fuel : ℕ) (resp : GetResponse) (st : State) (x : Result (Map V × Bytes))
      → (pass (st, x) (rest_of_page fuel resp)).1 ≡ after_page fuel resp st x
  unfolding after_page
  rest_of_page_lem fuel resp st (err e) = refl
  rest_of_page_lem fuel resp st (ok (flat, key)) =
      choose (resp.more && is_nil resp.kvs) (resp.more && is_pos s.limit)
    where
      choose :
          (a b : Bool)
          → ((if a
                then fail (plain (more_with_empty_page s.prefix))
                else if b
                then pages env s fuel false key flat
                else give (resp.revision, flat))
              st).1
            ≡ (if a
                then err (plain (more_with_empty_page s.prefix))
                else if b
                then (pages env s fuel false key flat st).1
                else ok (resp.revision, flat))
      choose true b = refl
      choose false true = refl
      choose false false = refl

  got :
      (fuel : ℕ) (st : State) (site : Site) (flat : Map V) (last : Bytes) (x : Result GetResponse)
      (resp : GetResponse)
      → x ≡ ok resp
      → (pass
          (st, or_wrap site x)
          (λ r. (λ st'. pass (st', take_page env s r.kvs flat last) (rest_of_page fuel r)))).1
        ≡ after_page fuel resp st (take_page env s resp.kvs flat last)
  got fuel st site flat last x resp h = rw h (rest_of_page_lem fuel resp st _)

  pages-suc :
      (fuel : ℕ) (first : Bool) (last : Bytes) (flat : Map V) (st : State) (resp : GetResponse)
      → env.get st.rpcs (page_key env s first last) (page_opts env s first) ≡ ok resp
      → (pages env s (suc fuel) first last flat st).1
        ≡ after_page fuel resp
            (get env (page_key env s first last) (page_opts env s first) st).0
            (take_page env s resp.kvs flat last)
  unfolding pages get
  pages-suc fuel first last flat st resp h =
      got fuel _ (Site.read_prefix s.prefix) flat last
        (env.get st.rpcs (page_key env s first last) (page_opts env s first)) resp h

  -- All pages together.
  abbrev pages_of : List KeyValue → ℕ → Map V → Result (ℕ × Map V)
  pages_of rest rev flat = after (all_entries env s rest flat) (λ m. ok (rev, m))

  -- A page that is the last one.
  last_page :
      (fuel rev : ℕ) (resp : GetResponse) (st : State) (rest : List KeyValue) (flat : Map V)
      (last : Bytes)
      → resp.kvs ≡ rest
      → resp.revision ≡ rev
      → resp.more ≡ false
      → after_page fuel resp st (take_page env s resp.kvs flat last) ≡ pages_of rest rev flat
  unfolding after_page
  last_page fuel rev resp st rest flat last all same no_more =
      ap (after_page fuel resp st) (take_page_lem env s resp.kvs flat last)
      ∙ (step (all_entries env s resp.kvs flat) ∙ ap (λ t. pages_of t rev flat) all)
    where
      step :
          (r : Result (Map V))
          → after_page fuel resp st (after r (λ m. ok (m, last_key last resp.kvs)))
            ≡ after r (λ m. ok (rev, m))
      step (err e) = refl
      step (ok m) = ground arith

  -- A page that more pages follow.
  full_page :
      (fuel rev n : ℕ) (resp : GetResponse) (st : State) (x : KeyValue) (xs : List KeyValue)
      (flat : Map V) (last : Bytes)
      → is_pos s.limit ≡ true
      → resp.kvs ≡ x ∷ take n xs
      → resp.more ≡ true
      → ((m : Map V)
          → (pages env s fuel false (last_key x.key (take n xs)) m st).1
            ≡ pages_of (drop n xs) rev m)
      → after_page fuel resp st (take_page env s resp.kvs flat last) ≡ pages_of (x ∷ xs) rev flat
  unfolding after_page is_nil
  full_page fuel rev n resp st x xs flat last paged some_kvs more ih =
      ap (λ t. after_page fuel resp st (take_page env s t flat last)) some_kvs
      ∙ (ap (after_page fuel resp st) (take_page_lem env s (x ∷ take n xs) flat last)
          ∙ (step (all_entries env s (x ∷ take n xs) flat)
              ∙ ap (λ r. after r (λ m. ok (rev, m)))
                  (sym (all_entries-append env s (x ∷ take n xs) (drop n xs) flat)
                    ∙ ap (λ t. all_entries env s (x ∷ t) flat) (take-drop n xs))))
    where
      full : is_nil resp.kvs ≡ false
      full = ap is_nil some_kvs

      step :
          (r : Result (Map V))
          → after_page fuel resp st (after r (λ m. ok (m, last_key x.key (take n xs))))
            ≡ after (after r (λ m. all_entries env s (drop n xs) m)) (λ m. ok (rev, m))
      step (err e) = refl
      step (ok m) = ground (arith, full, ih m)

  -- A page that the server answers from `rest`.
  page_lem :
      (fuel rev : ℕ) (st : State) (rest : List KeyValue) (flat : Map V) (last : Bytes)
      → ((n : ℕ) (x : KeyValue) (xs : List KeyValue) (m : Map V)
          → rest ≡ x ∷ xs
          → (pages env s fuel false (last_key x.key (take n xs)) m st).1
            ≡ pages_of (drop n xs) rev m)
      → after_page fuel
          (limited rev (page_limit env s) rest)
          st
          (take_page env s (limited rev (page_limit env s) rest).kvs flat last)
        ≡ pages_of rest rev flat
  unfolding page_limit
  page_lem fuel rev st rest flat last ih = go (is_pos s.limit) (pos_part s.limit) rest refl refl ih
    where
      go :
          (b : Bool) (k : ℕ) (kvs : List KeyValue)
          → is_pos s.limit ≡ b
          → pos_part s.limit ≡ k
          → ((n : ℕ) (x : KeyValue) (xs : List KeyValue) (m : Map V)
              → kvs ≡ x ∷ xs
              → (pages env s fuel false (last_key x.key (take n xs)) m st).1
                ≡ pages_of (drop n xs) rev m)
          → after_page fuel
              (limited rev (if b then k else 0) kvs)
              st
              (take_page env s (limited rev (if b then k else 0) kvs).kvs flat last)
            ≡ pages_of kvs rev flat
      go false k kvs e f ih = last_page fuel rev _ st kvs flat last refl refl refl
      go true zero kvs e f ih = last_page fuel rev _ st kvs flat last refl refl refl
      go true (suc n) [] e f ih = last_page fuel rev _ st [] flat last refl refl (ground arith)
      go true (suc n) (x ∷ xs) e f ih = elim (Bool-cases (ltb n (length xs))) [
        | inl more ↦
            full_page fuel rev n _ st x xs flat last e refl (ground arith) (λ m. ih n x xs m refl)
        | inr all ↦
            last_page fuel rev _ st (x ∷ xs) flat last
              (ap (λ t. x ∷ t) (take_all n xs (ground arith))) refl (ground arith)
      ]

  -- The pages together are the entries of the range, in order, whatever the limit; and the fuel
  -- is enough if it exceeds their number.
  pub pages_lem :
      (store : List KeyValue) (rev fuel : ℕ) (first : Bool) (last : Bytes) (rest : List KeyValue)
      (flat : Map V) (st : State)
      → IsSnapshot env store rev
      → IsSorted store
      → IsRest env s store first last rest
      → length rest < fuel
      → (pages env s fuel first last flat st).1 ≡ pages_of rest rev flat
  pages_lem store rev zero first last rest flat st snap h r enough = absurd (omega arith)
  pages_lem store rev (suc fuel) first last rest flat st snap h r enough =
      pages-suc fuel first last flat st _ (served env s store rev st.rpcs first last rest snap r)
      ∙ page_lem fuel rev _ rest flat last λ n x xs m e.
        pages_lem store rev fuel false (last_key x.key (take n xs)) (drop n xs) m _ snap h
          (next-IsRest env s store first last n x xs h (r ∙ e))
          (omega (arith, length-drop n xs, ap length e))
