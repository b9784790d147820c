-- ===== src/Read.antt =====
-- read.go: Read, ReadBytes and the prefix read with its pages.
pub mod Keeps
pub mod Effects
pub mod Entries
pub mod Requests
pub mod Pages
pub mod Snapshot
pub mod Limit
pub mod Gets
pub mod Down
pub mod Samples
mod Tests
use koanf_etcd.Base.{
  ℕ, zero, suc, Bool, true, false, not, ◌&&◌, Option, none, some, List, [], ◌∷◌, ◌++◌, Bytes,
  is_empty, insert, if◌then◌else◌,
}
use koanf_etcd.Base.Int.{is_pos}
use koanf_etcd.Errors.{
  Result, ok, err, Error, Site, sentinel, plain, wrap, out_of_fuel, nil_call, closed, use_parser,
  not_blob, key_not_found, empty_prefix, not_found, read_blob, read_nested, value_transform,
  more_with_empty_page, or_wrap,
}
use koanf_etcd.Client.{
  OpOption, with_prefix, with_serializable, with_rev, with_limit, with_sort_key_ascend, with_range,
  KeyValue, GetResponse,
}
use koanf_etcd.Range.{prefix_end}
use koanf_etcd.Path.{Map, unflatten_map}
use koanf_etcd.Settings.{Settings, Handle}
use koanf_etcd.Provider.{State, AtomicStats, Env, Effect, get_sent, on_empty_called, emit, add64}

-- A Go method on the provider that returns a value or an error.
abbrev pub M {ℓ} : Type ℓ → Type ℓ
M A = State → State × Result A

abbrev pub pass {ℓ κ} : {A : Type ℓ} {B : Type κ} → State × Result A → (A → M B) → State × Result B
pass (st, err e) f = (st, err e)
pass (st, ok a) f = f a st

infixl 5 ◌>>=◌ ◌>>◌
abbrev pub ◌>>=◌ {ℓ κ} : {A : Type ℓ} {B : Type κ} → M A → (A → M B) → M B
◌>>=◌ m f st = pass (m st) f

abbrev pub ◌>>◌ {ℓ} : {B : Type ℓ} → M (Unit {0}) → M B → M B
m >> k = m >>= λ _. k

abbrev pub give {ℓ} : {A : Type ℓ} → A → M A
give a st = (st, ok a)

-- A result that needs no state.
abbrev pub lift {ℓ} : {A : Type ℓ} → Result A → M A
lift r st = (st, r)

abbrev pub fail {ℓ} : {A : Type ℓ} → Error → M A
fail e st = (st, err e)

abbrev pub wrapped {ℓ} : {A : Type ℓ} → Site → M A → M A
wrapped site m st = let (st', r) = m st in (st', or_wrap site r)

-- `p.stats.revision.Store(rev)` and `p.stats.totalReads.Add(1)`
unfoldable pub store_revision : ℕ → M (Unit {0})
store_revision rev st = (record st { stats = record (st.stats) { revision = rev } }, ok tt)

unfoldable pub count_read : M (Unit {0})
count_read st =
    let total = add64 st.stats.total_reads 1 in
    (record st { stats = record (st.stats) { total_reads = total } }, ok tt)

-- A call of a function that is nil would panic; `New` leaves no transform nil.
call_value {ℓ} : {V : Type ℓ} → Option (Bytes → Bytes → Result V) → Bytes → Bytes → Result V
call_value none key raw = err nil_call
call_value (some f) key raw = f key raw

call_key : Option (Bytes → Bytes) → Bytes → Result Bytes
call_key none key = err nil_call
call_key (some f) key = ok (f key)

pub is_nil {ℓ} : {A : Type ℓ} → List A → Bool
is_nil [] = true
is_nil (x ∷ xs) = false

-- Sends a Get: the client's n-th answer.
unfoldable pub get : {V : Type 0} → Env V → Bytes → List OpOption → M GetResponse
get env key opts st =
    (emit (get_sent key opts) (record st { rpcs = suc st.rpcs }), env.get st.rpcs key opts)

abbrev option_if : Bool → OpOption → List OpOption
option_if true o = o ∷ []
option_if false o = []

-- The chain of two results that need no state.
abbrev after {ℓ κ} : {A : Type ℓ} {B : Type κ} → Result A → (A → Result B) → Result B
after r f = elim r [ err e ↦ err e | ok a ↦ f a ]

abbrev pair {ℓ κ} : {A : Type ℓ} {B : Type κ} → Result B → Result A → Result (A × B)
pair v k = after v (λ b. after k (λ a. ok (a, b)))

module _ {V : Type 0} (env : Env V) (s : Settings V) where
  pub read_opts : Bool → List OpOption
  read_opts prefixed =
      option_if prefixed with_prefix
      ++ (option_if s.serializable with_serializable
          ++ option_if (is_pos s.read_revision) (with_rev s.read_revision))

  -- The transforms of one key and value.
  pub transform_kv : KeyValue → Result (Bytes × V)
  unfolding call_value call_key
  transform_kv kv =
      pair (or_wrap (value_transform kv.key) (call_value s.value_transform kv.key kv.value))
        (call_key s.key_transform kv.key)

  pub nest : Map V → Result (Map V)
  nest flat =
      if s.unflatten
      then or_wrap read_nested (unflatten_map env.unflatten (env.order flat) s.delim)
      else ok flat

  single_value : List KeyValue → Result (Map V)
  unfolding transform_kv nest
  single_value [] =
      if s.strict then err (wrap (not_found s.key) (sentinel key_not_found)) else ok []
  single_value (kv ∷ kvs) = after (transform_kv kv) (λ entry. nest (entry ∷ []))

  read_single : M (Map V)
  unfolding get store_revision single_value read_opts
  read_single = do
    resp ← wrapped (Site.read_single s.key) (get env s.key (read_opts false))
    store_revision resp.revision
    lift (single_value resp.kvs)

  -- The loop over a page: the flat map and the last key.
  pub take_page : List KeyValue → Map V → Bytes → Result (Map V × Bytes)
  unfolding transform_kv
  take_page [] flat last_key = ok (flat, last_key)
  take_page (kv ∷ kvs) flat last_key =
      after (transform_kv kv) (λ (path, v). take_page kvs (insert path v flat) kv.key)

  static_opts : List OpOption
  static_opts =
      option_if s.serializable with_serializable
      ++ (option_if (is_pos s.read_revision) (with_rev s.read_revision)
          ++ (if is_pos s.limit then with_limit s.limit ∷ with_sort_key_ascend ∷ [] else []))

  -- The request for a page: the prefix first, then from behind the last key to the range end.
  pub page_key : Bool → Bytes → Bytes
  page_key first last_key = if first then s.prefix else last_key ++ 0 ∷ []

  pub page_opts : Bool → List OpOption
  unfolding static_opts
  page_opts first =
      static_opts ++ (if first then with_prefix else with_range (prefix_end s.prefix)) ∷ []

  -- `for more`, on fuel: the revision of the last page, and the flat map.
  pub pages : ℕ → Bool → Bytes → Map V → M (ℕ × Map V)
  unfolding get take_page page_key page_opts is_nil
  pages zero first last_key flat = fail out_of_fuel
  pages (suc fuel) first last_key flat = do
    resp ← wrapped (Site.read_prefix s.prefix) (get env (page_key first last_key) (page_opts first))
    (flat', last_key') ← lift (take_page resp.kvs flat last_key)
    if resp.more && is_nil resp.kvs
        then fail (plain (more_with_empty_page s.prefix))
        else if resp.more && is_pos s.limit
        then pages fuel false last_key' flat'
        else give (resp.revision, flat')

  call_on_empty : Option Handle → State → State
  call_on_empty none st = st
  call_on_empty (some h) st = emit (on_empty_called h s.prefix) st

  pub finish_prefix : Map V → M (Map V)
  unfolding call_on_empty nest is_nil
  finish_prefix flat st =
      if is_nil flat
      then (if s.strict
          then (st, err (wrap (not_found s.prefix) (sentinel empty_prefix)))
          else (call_on_empty s.on_empty st, ok []))
      else (st, nest flat)

  read_prefix : M (Map V)
  unfolding pages store_revision finish_prefix
  read_prefix = do (rev, flat) ← pages env.fuel true [] []; store_revision rev; finish_prefix flat

  pub counted {ℓ} : {A : Type ℓ} → A → M A
  unfolding count_read
  counted a = do count_read; give a

  unfoldable pub read_ctx : M (Map V)
  unfolding read_single read_prefix counted
  read_ctx st =
      if st.closed
      then fail (sentinel closed) st
      else if s.blob
      then fail (sentinel use_parser) st
      else ((if is_empty s.key then read_prefix else read_single) >>= counted) st

  blob_value : List KeyValue → M Bytes
  unfolding counted
  blob_value [] = fail (wrap (not_found s.key) (sentinel key_not_found))
  blob_value (kv ∷ kvs) = counted kv.value

  unfoldable pub read_bytes_ctx : M Bytes
  unfolding get store_revision blob_value read_opts
  read_bytes_ctx st =
      if st.closed
      then fail (sentinel closed) st
      else if not s.blob
      then fail (sentinel not_blob) st
      else (do
        resp ← wrapped (read_blob s.key) (get env s.key (read_opts false))
        store_revision resp.revision
        blob_value resp.kvs)
          st

  -- `Read` and `ReadBytes`, and the same with the caller's context, which shows in the answers of
  -- the client only.
  abbrev pub read : M (Map V)
  read = read_ctx

  abbrev pub read_bytes : M Bytes
  read_bytes = read_bytes_ctx

  abbrev pub read_with : M (Map V)
  read_with = read_ctx

  abbrev pub read_bytes_with : M Bytes
  read_bytes_with = read_bytes_ctx
