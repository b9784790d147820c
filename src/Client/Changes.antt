-- ===== src/Client/Changes.antt =====
-- What etcd documents of the options of a Watch: it sends the changes of the keys in the range, but
-- not those that a filter of the options leaves out, from the revision of WithRev on.
use koanf_etcd.Base.{ℕ, Bool, true, false, ◌&&◌, List, [], ◌∷◌, Bytes, if◌then◌else◌}
use koanf_etcd.Base.Int.{pos_part}
use koanf_etcd.Client.{
  OpOption, with_prefix, with_serializable, with_sort_key_ascend, with_progress_notify,
  with_created_notify, with_filter_put, with_filter_delete, with_rev, with_limit, with_range, Kind,
  put, delete, ClientEvent, in_range,
}
use koanf_etcd.Client.Server.{range_end}

-- The events that pass a test.
abbrev pub pick : (ClientEvent → Bool) → List ClientEvent → List ClientEvent
pick p [] = []
pick p (x ∷ xs) = if p x then x ∷ pick p xs else pick p xs

not_put : Kind → Bool
not_put put = false
not_put delete = true

not_delete : Kind → Bool
not_delete put = true
not_delete delete = false

-- What the filters among the options let through.
unfoldable pub unfiltered : List OpOption → Kind → Bool
unfolding not_put not_delete
unfiltered [] k = true
unfiltered (with_filter_put ∷ os) k = not_put k && unfiltered os k
unfiltered (with_filter_delete ∷ os) k = not_delete k && unfiltered os k
unfiltered (with_prefix ∷ os) k = unfiltered os k
unfiltered (with_range e ∷ os) k = unfiltered os k
unfiltered (with_serializable ∷ os) k = unfiltered os k
unfiltered (with_sort_key_ascend ∷ os) k = unfiltered os k
unfiltered (with_progress_notify ∷ os) k = unfiltered os k
unfiltered (with_created_notify ∷ os) k = unfiltered os k
unfiltered (with_rev r ∷ os) k = unfiltered os k
unfiltered (with_limit n ∷ os) k = unfiltered os k

-- The revision from which the options ask for changes, 0 for those to come.
unfoldable pub start_of : List OpOption → ℕ
start_of [] = 0
start_of (with_rev r ∷ os) = pos_part r
start_of (with_prefix ∷ os) = start_of os
start_of (with_range e ∷ os) = start_of os
start_of (with_serializable ∷ os) = start_of os
start_of (with_sort_key_ascend ∷ os) = start_of os
start_of (with_progress_notify ∷ os) = start_of os
start_of (with_created_notify ∷ os) = start_of os
start_of (with_filter_put ∷ os) = start_of os
start_of (with_filter_delete ∷ os) = start_of os
start_of (with_limit n ∷ os) = start_of os

-- Whether a change is one for a Watch of the key with the options, whatever its revision.
abbrev pub is_sent : Bytes → List OpOption → ClientEvent → Bool
is_sent key opts ev = in_range key (range_end key opts) ev.kv.key && unfiltered opts ev.kind
