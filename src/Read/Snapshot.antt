-- ===== src/Read/Snapshot.antt =====
-- What a prefix read returns: the keys under the prefix, whatever the size of the pages.
use koanf_etcd.Base.{
  ℕ, ◌≤◌, ◌<◌, Bool, true, false, List, [], ◌∷◌, Bytes, is_empty, length, All, has_prefix, ◌≡◌,
  refl, sym, ap, subst, arith, if◌then◌else◌,
}
use koanf_etcd.Errors.{Result, ok, err, sentinel, wrap, not_found, empty_prefix}
use koanf_etcd.Client.{KeyValue}
use koanf_etcd.Client.Server.{select, in_scan, IsSorted}
use koanf_etcd.Range.{prefix_end}
use koanf_etcd.Range.Laws.{IsByte, in_range-prefix_end}
use koanf_etcd.Path.{Map}
use koanf_etcd.Settings.{Settings}
use koanf_etcd.Provider.{State, AtomicStats, Env, add64}
use koanf_etcd.Read.{
  M, ◌>>◌, pass, after, is_nil, get, nest, pages, page_key, store_revision, finish_prefix,
  read_prefix, counted, read_ctx, call_on_empty, count_read,
}
use koanf_etcd.Read.Requests.{IsSnapshot}
use koanf_etcd.Read.Keeps.{pages-kept}
use koanf_etcd.Read.Pages.{pages_lem}
use koanf_etcd.Read.Entries.{all_entries}

-- The keys with the prefix, in order.
abbrev pub under : Bytes → List KeyValue → List KeyValue
under prefix = select (λ x. has_prefix prefix x.key)

abbrev pub AllBytes : List KeyValue → Type 0
AllBytes = All (λ x. All IsByte x.key)

pub scan-under :
    (prefix : Bytes) (store : List KeyValue)
    → AllBytes store
    → select (in_scan prefix (prefix_end prefix)) store ≡ under prefix store
scan-under prefix [] h = refl
scan-under prefix (x ∷ xs) (b, h) =
    ground (arith, in_range-prefix_end prefix x.key b, scan-under prefix xs h)

pub length-select : (p : KeyValue → Bool) (xs : List KeyValue) → length (select p xs) ≤ length xs
length-select p [] = omega arith
length-select p (x ∷ xs) = ground (arith, length-select p xs)

module _ {V : Type 0} (env : Env V) (s : Settings V) where
  pages-stats :
      (fuel : ℕ) (first : Bool) (last : Bytes) (flat : Map V) (st : State)
      → (pages env s fuel first last flat st).0.stats ≡ st.stats
  unfolding get
  pages-stats fuel first last flat st =
      pages-kept env s (λ b. b.stats ≡ st.stats) (λ key opts b h. h) fuel first last flat st refl

  -- The flat map becomes the result: a missing prefix is an error if WithStrict is on.
  abbrev pub finished : Map V → Result (Map V)
  finished flat =
      if is_nil flat
      then (if s.strict then err (wrap (not_found s.prefix) (sentinel empty_prefix)) else ok [])
      else nest env s flat

  -- What a read promises: every key under the prefix transformed and put into one map, in the
  -- order of the keys, and that map finished.
  abbrev pub snapshot_map : List KeyValue → Result (Map V)
  snapshot_map store = after (all_entries env s (under s.prefix store) []) finished

  abbrev one_more : AtomicStats → AtomicStats
  one_more c = record c { total_reads = add64 c.total_reads 1 }

  abbrev counted_stats : Result (Map V) → AtomicStats → AtomicStats
  counted_stats (err e) c = c
  counted_stats (ok m) c = one_more c

  abbrev at_revision : ℕ → AtomicStats → AtomicStats
  at_revision rev c = record c { revision = rev }

  abbrev noted_stats : Result (Map V) → ℕ → AtomicStats → AtomicStats
  noted_stats (err e) rev c = c
  noted_stats (ok flat) rev c = counted_stats (finished flat) (at_revision rev c)

  -- The statistics after it: the revision once all pages are there, one more read if it succeeds.
  abbrev pub snapshot_stats : List KeyValue → ℕ → AtomicStats → AtomicStats
  snapshot_stats store = noted_stats (all_entries env s (under s.prefix store) [])

  abbrev Gives : Result (Map V) → AtomicStats → State × Result (Map V) → Type 0
  Gives r c x = (x.1 ≡ r) × (x.0.stats ≡ c)

  counted-Gives :
      (r : Result (Map V)) (c : AtomicStats) (x : State × Result (Map V))
      → Gives r c x
      → Gives r (counted_stats r c) (pass x (counted env s))
  unfolding counted count_read
  counted-Gives r c (st, y) (h, k) = rw h (count r st k)
    where
      count :
          (r : Result (Map V)) (st : State)
          → st.stats ≡ c
          → Gives r (counted_stats r c) (pass (st, r) (counted env s))
      count (err e) st k = (refl, k)
      count (ok m) st k = (refl, ap one_more k)

  finish_prefix-Gives :
      (flat : Map V) (c : AtomicStats) (st : State)
      → st.stats ≡ c
      → Gives (finished flat) c (finish_prefix env s flat st)
  unfolding finish_prefix call_on_empty
  finish_prefix-Gives flat c st h = ground arith

  abbrev pub rest_of_read : ℕ × Map V → M (Map V)
  rest_of_read (rev, flat) = store_revision rev >> finish_prefix env s flat

  rest_of_read-Gives :
      (rev : ℕ) (c : AtomicStats) (r : Result (Map V)) (x : State × Result (ℕ × Map V))
      → x.1 ≡ after r (λ m. ok (rev, m))
      → x.0.stats ≡ c
      → Gives (after r finished) (noted_stats r rev c) (pass (pass x rest_of_read) (counted env s))
  unfolding store_revision
  rest_of_read-Gives rev c r (st, y) h k = rw h (finish r)
    where
      finish :
          (r : Result (Map V))
          → Gives
              (after r finished)
              (noted_stats r rev c)
              (pass (pass (st, after r (λ m. ok (rev, m))) rest_of_read) (counted env s))
      finish (err e) = (refl, k)
      finish (ok flat) =
          counted-Gives (finished flat) (at_revision rev c) _
            (finish_prefix-Gives flat _ _ (ap (at_revision rev) k))

  pub read_ctx_of_prefix :
      (st : State)
      → st.closed ≡ false
      → s.blob ≡ false
      → is_empty s.key ≡ true
      → read_ctx env s st
        ≡ pass (pass (pages env s env.fuel true [] [] st) rest_of_read) (counted env s)
  unfolding read_ctx read_prefix
  read_ctx_of_prefix st opened nested prefixed = ground arith

  -- A prefix read by an open provider, with pages of any size, against a server that answers from
  -- one state of a sorted store, with fuel above the size of that store: it returns every key under
  -- the prefix, transformed and put into one map, or the error of a transform or of a missing
  -- prefix; and the statistics hold the revision once all pages are there, and one read more if it
  -- succeeds.
  pub read_ctx_snapshot :
      (store : List KeyValue) (rev : ℕ) (st : State)
      → IsSnapshot env store rev
      → IsSorted store
      → AllBytes store
      → length store < env.fuel
      → st.closed ≡ false
      → s.blob ≡ false
      → is_empty s.key ≡ true
      → ((read_ctx env s st).1 ≡ snapshot_map store)
        × ((read_ctx env s st).0.stats ≡ snapshot_stats store rev st.stats)
  unfolding page_key
  read_ctx_snapshot store rev st snap sorted bytes enough opened nested prefixed =
      subst (Gives (snapshot_map store) (snapshot_stats store rev st.stats))
        (sym (read_ctx_of_prefix st opened nested prefixed))
        (rest_of_read-Gives rev st.stats (all_entries env s (under s.prefix store) [])
          (pages env s env.fuel true [] [] st)
          (pages_lem env s store rev env.fuel true [] (under s.prefix store) [] st snap sorted
            (scan-under s.prefix store bytes)
            (omega (arith, length-select (λ x. has_prefix s.prefix x.key) store)))
          (pages-stats env.fuel true [] [] st))

  noted_stats-revision :
      (r : Result (Map V)) (rev : ℕ) (c : AtomicStats) (m : Map V)
      → after r finished ≡ ok m
      → (noted_stats r rev c).revision ≡ rev
  noted_stats-revision (err e) rev c m h = cc
  noted_stats-revision (ok flat) rev c m h = go (finished flat)
    where
      go : (r : Result (Map V)) → (counted_stats r (at_revision rev c)).revision ≡ rev
      go (err e) = refl
      go (ok m) = refl

  -- A read that succeeds leaves its revision.
  pub snapshot_stats-revision :
      (store : List KeyValue) (rev : ℕ) (c : AtomicStats) (m : Map V)
      → snapshot_map store ≡ ok m
      → (snapshot_stats store rev c).revision ≡ rev
  snapshot_stats-revision store rev c m h =
      noted_stats-revision (all_entries env s (under s.prefix store) []) rev c m h
