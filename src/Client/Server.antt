-- ===== src/Client/Server.antt =====
-- What etcd documents of a Get: the keys of a range in their order, at most as many as the limit
-- says, and whether there are more.
use koanf_etcd.Base.{
  ℕ, zero, suc, Bool, true, false, ◌&&◌, List, [], ◌∷◌, ◌++◌, Bytes, str_lt, length, take, drop,
  All, ltb, ◌≡◌, inl, inr, refl, sym, ◌∙◌, arith, Bool-cases, if◌then◌else◌,
}
use koanf_etcd.Base.Int.{pos_part}
use koanf_etcd.Client.{
  OpOption, with_prefix, with_serializable, with_sort_key_ascend, with_progress_notify,
  with_created_notify, with_filter_put, with_filter_delete, with_rev, with_limit, with_range,
  KeyValue, GetResponse, in_range,
}
use koanf_etcd.Range.{prefix_end}
use koanf_etcd.Strings.Order.{str_lt_trans, str_lt-nul, str_lt_irrefl}

-- The elements that pass a test.
abbrev pub select : (KeyValue → Bool) → List KeyValue → List KeyValue
select p [] = []
select p (x ∷ xs) = if p x then x ∷ select p xs else select p xs

-- The range end that the options ask for, and the limit, 0 for none.
abbrev pub range_end : Bytes → List OpOption → Bytes
range_end key [] = key ++ 0 ∷ []
range_end key (with_prefix ∷ os) = prefix_end key
range_end key (with_range e ∷ os) = e
range_end key (with_serializable ∷ os) = range_end key os
range_end key (with_sort_key_ascend ∷ os) = range_end key os
range_end key (with_progress_notify ∷ os) = range_end key os
range_end key (with_created_notify ∷ os) = range_end key os
range_end key (with_filter_put ∷ os) = range_end key os
range_end key (with_filter_delete ∷ os) = range_end key os
range_end key (with_rev r ∷ os) = range_end key os
range_end key (with_limit n ∷ os) = range_end key os

abbrev pub limit_of : List OpOption → ℕ
limit_of [] = 0
limit_of (with_limit n ∷ os) = pos_part n
limit_of (with_prefix ∷ os) = limit_of os
limit_of (with_range e ∷ os) = limit_of os
limit_of (with_serializable ∷ os) = limit_of os
limit_of (with_sort_key_ascend ∷ os) = limit_of os
limit_of (with_progress_notify ∷ os) = limit_of os
limit_of (with_created_notify ∷ os) = limit_of os
limit_of (with_filter_put ∷ os) = limit_of os
limit_of (with_filter_delete ∷ os) = limit_of os
limit_of (with_rev r ∷ os) = limit_of os

abbrev pub in_scan : Bytes → Bytes → KeyValue → Bool
in_scan from to x = in_range from to x.key

abbrev pub limited : ℕ → ℕ → List KeyValue → GetResponse
limited revision zero kvs = record { revision = revision; kvs = kvs; more = false }
limited revision (suc n) kvs = record {
  revision = revision;
  kvs = take (suc n) kvs;
  more = ltb (suc n) (length kvs);
}

-- The answer from a store in the order of its keys, at a revision that is the present one: without
-- WithRev.
abbrev pub serve : List KeyValue → ℕ → Bytes → List OpOption → GetResponse
serve store revision key opts =
    limited revision (limit_of opts) (select (in_scan key (range_end key opts)) store)

-- The keys of a store, each once and in order.
abbrev pub IsSorted : List KeyValue → Type 0
IsSorted [] = Unit
IsSorted (x ∷ xs) = All (λ y. str_lt x.key y.key ≡ true) xs × IsSorted xs

abbrev pub behind : Bytes → KeyValue → Bool
behind key x = str_lt key x.key

select_congr :
    (p q : KeyValue → Bool) (xs : List KeyValue)
    → ((x : KeyValue) → p x ≡ q x)
    → select p xs ≡ select q xs
select_congr p q [] h = refl
select_congr p q (x ∷ xs) h = ground (arith, h x, select_congr p q xs h)

select-select :
    (p q : KeyValue → Bool) (xs : List KeyValue)
    → select p (select q xs) ≡ select (λ x. p x && q x) xs
select-select p q [] = refl
select-select p q (x ∷ xs) = ground (arith, select-select p q xs)

in_scan-nul :
    (from to key : Bytes) (x : KeyValue)
    → str_lt key from ≡ false
    → in_scan (key ++ 0 ∷ []) to x ≡ (behind key x && in_scan from to x)
in_scan-nul from to key x h = ground (arith, str_lt-nul x.key key, str_lt_trans key x.key from)

-- A scan from right behind a key of an earlier scan is what that scan has behind the key.
pub select-nul :
    (from to key : Bytes) (store : List KeyValue)
    → str_lt key from ≡ false
    → select (in_scan (key ++ 0 ∷ []) to) store
      ≡ select (behind key) (select (in_scan from to) store)
select-nul from to key store h =
    select_congr _ _ store (λ x. in_scan-nul from to key x h)
    ∙ sym (select-select (behind key) (in_scan from to) store)

if-All {κ} :
    (P : KeyValue → Type κ) (b : Bool) (x : KeyValue) (xs : List KeyValue)
    → P x
    → All P xs
    → All P (if b then x ∷ xs else xs)
if-All P true x xs k h = (k, h)
if-All P false x xs k h = h

All-select {κ} :
    (P : KeyValue → Type κ) (p : KeyValue → Bool) (xs : List KeyValue)
    → All P xs
    → All P (select p xs)
All-select P p [] h = tt
All-select P p (x ∷ xs) (k, h) = if-All P (p x) x _ k (All-select P p xs h)

pub select-IsSorted :
    (p : KeyValue → Bool) (xs : List KeyValue) → IsSorted xs → IsSorted (select p xs)
select-IsSorted p [] h = tt
select-IsSorted p (x ∷ xs) (first, h) = elim (Bool-cases (p x)) [
  | inl kept ↦
      rw kept ((All-select (λ y. str_lt x.key y.key ≡ true) p xs first, select-IsSorted p xs h))
  | inr dropped ↦ rw dropped (select-IsSorted p xs h)
]

-- What passes the test.
pub select-All : (p : KeyValue → Bool) (xs : List KeyValue) → All (λ x. p x ≡ true) (select p xs)
select-All p [] = tt
select-All p (x ∷ xs) = elim (Bool-cases (p x)) [
  | inl kept ↦ rw kept ((kept, select-All p xs))
  | inr dropped ↦ rw dropped (select-All p xs)
]

select_passing :
    (key : Bytes) (xs : List KeyValue)
    → All (λ y. str_lt key y.key ≡ true) xs
    → select (behind key) xs ≡ xs
select_passing key [] h = refl
select_passing key (x ∷ xs) (k, h) = ground (arith, select_passing key xs h)

-- The key of the last entry, or the given one.
abbrev pub last_key : Bytes → List KeyValue → Bytes
last_key key [] = key
last_key key (x ∷ xs) = last_key x.key xs

pub last_key-All :
    (P : Bytes → Type 0) (key : Bytes) (n : ℕ) (xs : List KeyValue)
    → P key
    → All (λ x. P x.key) xs
    → P (last_key key (take n xs))
last_key-All P key zero xs k h = k
last_key-All P key (suc n) [] k h = k
last_key-All P key (suc n) (x ∷ xs) k (kx, h) = last_key-All P x.key n xs kx h

-- Behind the last key of a page stands the rest.
pub behind-last_key :
    (n : ℕ) (x : KeyValue) (xs : List KeyValue)
    → IsSorted (x ∷ xs)
    → select (behind (last_key x.key (take n xs))) (x ∷ xs) ≡ drop n xs
behind-last_key zero x xs (first, h) =
    ground (arith, str_lt_irrefl x.key, select_passing x.key xs first)
behind-last_key (suc n) x [] h = ground (arith, str_lt_irrefl x.key)
behind-last_key (suc n) x (y ∷ ys) ((lt, first), h) =
    let key = last_key y.key (take n ys) in
    let above = last_key-All (λ k. str_lt x.key k ≡ true) y.key n ys lt first in
    ground
      (arith, above, str_lt_trans x.key key x.key, str_lt_irrefl x.key, behind-last_key n y ys h)
