-- ===== src/Client.antt =====
-- What the program exchanges with etcd's client (go.etcd.io/etcd/client/v3). The client itself is
-- a parameter of the model; these are its requests and answers.
pub mod Server
pub mod Changes
use koanf_etcd.Base.{ℕ, Bool, not, ◌&&◌, ◌||◌, Option, List, [], ◌∷◌, Bytes, str_eq, str_lt}
use koanf_etcd.Base.Int.{ℤ}
use koanf_etcd.Errors.{Error}

pub data OpOption : Type 0 where
  with_prefix with_serializable with_sort_key_ascend : OpOption
  with_progress_notify with_created_notify with_filter_put with_filter_delete : OpOption
  with_rev with_limit : ℤ → OpOption
  with_range : Bytes → OpOption

pub record KeyValue : Type 0 where
  pub key : Bytes
  pub value : Bytes
  pub mod_revision : ℕ

-- `revision` is the header's. Revisions count etcd's writes; they are not negative, and lie far
-- below 2^63.
pub record GetResponse : Type 0 where
  pub revision : ℕ
  pub kvs : List KeyValue
  pub more : Bool

-- Whether etcd's documentation puts a key in the range [from, to): a range end of one zero byte
-- stands for all keys from `from` on.
abbrev pub in_range : Bytes → Bytes → Bytes → Bool
in_range from to k = not (str_lt k from) && (str_eq to (0 ∷ []) || str_lt k to)

-- mvccpb.Event: `EventTypePut` and `EventTypeDelete` are its two types.
pub data Kind : Type 0 where
  put delete : Kind

pub record ClientEvent : Type 0 where
  pub kind : Kind
  pub kv : KeyValue

-- clientv3.WatchResponse; `failure` is what its method `Err` returns.
pub record WatchResponse : Type 0 where
  pub failure : Option Error
  pub revision : ℕ
  pub events : List ClientEvent
