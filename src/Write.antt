-- ===== src/Write.antt =====
-- write/write.go: Put, Delete, DeletePrefix and PutAll, with the requests that they send.
pub mod Guards
mod Tests
use koanf_etcd.Base.{
  Bool, true, false, not, ◌&&◌, ◌||◌, Option, none, some, List, [], ◌∷◌, Bytes, codes, is_empty,
  str_eq, if◌then◌else◌,
}
use koanf_etcd.Errors.{
  Error, Result, ok, err, Site, sentinel, plain, wrap, unsafe_prefix, unsafe_key, delete_prefix,
  commit, txn_failed,
}
use koanf_etcd.Client.{OpOption, with_prefix}

pub data Request : Type 0 where
  put_sent : (key value : Bytes) → Request
  delete_sent : Bytes → List OpOption → Request
  txn_sent : List (Bytes × Bytes) → Request

-- The answers of etcd's client: an error, if any, and for a transaction whether it succeeded.
pub record Cli : Type 0 where
  pub put : Bytes → Bytes → Option Error
  pub delete : Bytes → List OpOption → Option Error
  pub commit : List (Bytes × Bytes) → Result Bool

-- `opts`, and `type Option func(*opts)`
pub record Opts : Type 0 where
  pub allow_empty_prefix : Bool

abbrev pub WriteOption : Type 0
WriteOption = Opts → Opts

unfoldable pub allow_empty : WriteOption
allow_empty o = record o { allow_empty_prefix = true }

unfoldable pub apply_opts : List WriteOption → Opts → Opts
apply_opts [] o = o
apply_opts (opt ∷ opts) o = apply_opts opts (opt o)

-- What a helper returns: the requests it sent, and its error.
abbrev pub Sent : Type 0
Sent = List Request × Option Error

wrap_some : Site → Option Error → Option Error
wrap_some site none = none
wrap_some site (some e) = some (wrap site e)

refuse : Site → Sent
refuse site = ([], some (wrap site (sentinel unsafe_prefix)))

unfoldable pub put_key : Cli → (key value : Bytes) → Sent
unfolding wrap_some
put_key cli key value = (put_sent key value ∷ [], wrap_some (Site.put key) (cli.put key value))

unfoldable pub delete_key : Cli → Bytes → Sent
unfolding wrap_some refuse
delete_key cli key =
    if is_empty key
    then refuse (unsafe_key [])
    else (delete_sent key [] ∷ [], wrap_some (Site.delete key) (cli.delete key []))

unfoldable pub delete_all : Cli → Bytes → List WriteOption → Sent
unfolding wrap_some refuse apply_opts
delete_all cli prefix options =
    let o = apply_opts options (record { allow_empty_prefix = false }) in
    if not o.allow_empty_prefix && (is_empty prefix || str_eq prefix (codes "/"))
    then refuse (unsafe_key prefix)
    else (
      delete_sent prefix (with_prefix ∷ []) ∷ [],
      wrap_some (delete_prefix prefix) (cli.delete prefix (with_prefix ∷ [])),
    )

committed : Result Bool → Option Error
committed (err e) = some (wrap commit e)
committed (ok succeeded) = if succeeded then none else some (plain txn_failed)

-- `order` is the order in which Go ranges over the map.
unfoldable pub put_all :
    Cli → (List (Bytes × Bytes) → List (Bytes × Bytes)) → List (Bytes × Bytes) → Sent
unfolding committed
put_all cli order [] = ([], none)
put_all cli order (kv ∷ kvs) =
    let ops = order (kv ∷ kvs) in (txn_sent ops ∷ [], committed (cli.commit ops))
