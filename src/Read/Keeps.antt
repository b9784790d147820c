-- ===== src/Read/Keeps.antt =====
-- What a read keeps: whatever its four changes of the state keep.
use koanf_etcd.Base.{
  ℕ, zero, suc, Bool, true, false, ◌&&◌, Option, none, some, List, [], ◌∷◌, Bytes, is_empty, not,
  if◌then◌else◌,
}
use koanf_etcd.Base.Int.{is_pos}
use koanf_etcd.Errors.{
  Result, ok, err, Site, sentinel, wrap, closed, use_parser, not_blob, not_found, empty_prefix,
  read_blob,
}
use koanf_etcd.Client.{OpOption, KeyValue}
use koanf_etcd.Path.{Map}
use koanf_etcd.Settings.{Settings, Handle}
use koanf_etcd.Provider.{State, Env, on_empty_called, emit}
use koanf_etcd.Read.{
  M, pass, fail, give, wrapped, is_nil, get, store_revision, count_read, read_single, take_page,
  page_key, page_opts, pages, read_opts, call_on_empty, finish_prefix, nest, read_prefix, counted,
  read_ctx, blob_value, read_bytes_ctx,
}

-- Kept by a Get, the two changes of the statistics, and a call of OnEmpty.
pub record IsKept {V : Type 0} (env : Env V) (P : State → Type 0) : Type 0 where
  pub by_get : (key : Bytes) (opts : List OpOption) (st : State) → P st → P (get env key opts st).0
  pub by_revision : (rev : ℕ) (st : State) → P st → P (store_revision rev st).0
  pub by_count : (st : State) → P st → P (count_read st).0
  pub by_on_empty :
      (h : Handle) (prefix : Bytes) (st : State) → P st → P (emit (on_empty_called h prefix) st)

pass-kept {ℓ κ} :
    {A : Type ℓ} {B : Type κ} (P : State → Type 0) (x : State × Result A) (f : A → M B)
    → P x.0
    → ((a : A) (st : State) → P st → P (f a st).0)
    → P (pass x f).0
pass-kept P (st, err e) f h k = h
pass-kept P (st, ok a) f h k = k a st h

if-kept {ℓ} :
    {A : Type ℓ} (P : State → Type 0) (t : Bool) (x y : State × Result A)
    → P x.0
    → P y.0
    → P (if t then x else y).0
if-kept P true x y h k = h
if-kept P false x y h k = k

either-kept {ℓ} :
    {A : Type ℓ} (P : State → Type 0) (t : Bool) (m n : M A) (st : State)
    → P (m st).0
    → P (n st).0
    → P ((if t then m else n) st).0
either-kept P true m n st h k = h
either-kept P false m n st h k = k

module _ {V : Type 0} (env : Env V) (s : Settings V) (P : State → Type 0) where
  -- The pages send Gets only.
  pub pages-kept :
      ((key : Bytes) (opts : List OpOption) (st : State) → P st → P (get env key opts st).0)
      → (fuel : ℕ) (first : Bool) (last_key : Bytes) (flat : Map V) (st : State) → P st
      → P (pages env s fuel first last_key flat st).0
  unfolding pages
  pages-kept by_get zero first last_key flat st h = h
  pages-kept by_get (suc fuel) first last_key flat st h =
      pass-kept P
        (wrapped (Site.read_prefix s.prefix)
          (get env (page_key env s first last_key) (page_opts env s first)) st)
        _ (by_get _ _ st h)
        λ resp st' h'.
          pass-kept P (st', take_page env s resp.kvs flat last_key) _ h'
            λ x st'' h''.
              either-kept P (resp.more && is_nil resp.kvs) (fail _)
                (if resp.more && is_pos s.limit
                  then pages env s fuel false x.1 x.0
                  else give (resp.revision, x.0))
                st'' h''
                (either-kept P (resp.more && is_pos s.limit) (pages env s fuel false x.1 x.0)
                  (give (resp.revision, x.0)) st'' (pages-kept by_get fuel false x.1 x.0 st'' h'')
                  h'')

module _ {V : Type 0} (env : Env V) (s : Settings V) (P : State → Type 0) (k : IsKept env P) where
  finish_prefix-kept : (flat : Map V) (st : State) → P st → P (finish_prefix env s flat st).0
  unfolding finish_prefix call_on_empty
  finish_prefix-kept flat st h =
      if-kept P (is_nil flat) _ (st, nest env s flat)
        (if-kept P s.strict (st, err (wrap (not_found s.prefix) (sentinel empty_prefix)))
          (call_on_empty env s s.on_empty st, ok []) h (called s.on_empty))
        h
    where
      called : (o : Option Handle) → P (call_on_empty env s o st)
      called none = h
      called (some e) = k.by_on_empty e s.prefix st h

  counted-kept {ℓ} : {A : Type ℓ} (a : A) (st : State) → P st → P (counted env s a st).0
  unfolding counted
  counted-kept a st h = k.by_count st h

  read_prefix-kept : (st : State) → P st → P (read_prefix env s st).0
  unfolding read_prefix
  read_prefix-kept st h =
      pass-kept P (pages env s env.fuel true [] [] st) _
        (pages-kept env s P k.by_get env.fuel true [] [] st h)
        λ (rev, flat) st' h'. finish_prefix-kept flat _ (k.by_revision rev st' h')

  read_single-kept : (st : State) → P st → P (read_single env s st).0
  unfolding read_single
  read_single-kept st h =
      pass-kept P (wrapped (Site.read_single s.key) (get env s.key (read_opts env s false)) st) _
        (k.by_get _ _ st h) λ resp st' h'. k.by_revision resp.revision st' h'

  pub read_ctx-kept : (st : State) → P st → P (read_ctx env s st).0
  unfolding read_ctx
  read_ctx-kept st h = if-kept P st.closed (fail (sentinel closed) st) _ h (
      if-kept P s.blob (fail (sentinel use_parser) st) _ h (
        pass-kept P ((if is_empty s.key then read_prefix env s else read_single env s) st)
          (counted env s)
          (either-kept P (is_empty s.key) (read_prefix env s) (read_single env s) st
            (read_prefix-kept st h) (read_single-kept st h))
          counted-kept))

  blob_value-kept : (kvs : List KeyValue) (st : State) → P st → P (blob_value env s kvs st).0
  unfolding blob_value
  blob_value-kept [] st h = h
  blob_value-kept (kv ∷ kvs) st h = counted-kept kv.value st h

  pub read_bytes_ctx-kept : (st : State) → P st → P (read_bytes_ctx env s st).0
  unfolding read_bytes_ctx
  read_bytes_ctx-kept st h = if-kept P st.closed (fail (sentinel closed) st) _ h (
      if-kept P (not s.blob) (fail (sentinel not_blob) st) _ h (
        pass-kept P (wrapped (read_blob s.key) (get env s.key (read_opts env s false)) st) _
          (k.by_get _ _ st h)
          λ resp st' h'. blob_value-kept resp.kvs _ (k.by_revision resp.revision st' h')))
