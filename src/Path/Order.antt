-- ===== src/Path/Order.antt =====
-- The whole loop of `unflattenMap`: its verdict does not depend on the order of the keys.
use koanf_etcd.Base.{
  Bool, true, false, ◌||◌, List, [], ◌∷◌, Bytes, str_eq_iff, contains, Bool-cases, ◌≡◌, ◌≢◌, ◌⊎◌,
  inl, inr, refl, sym, ap, ◌∙◌, arith,
}
use koanf_etcd.Errors.{ok, err, Error, Is, path_collision}
use koanf_etcd.Path.{Map, Seen, split_clean_path, place_all, nothing_seen, unflatten_map}
use koanf_etcd.Path.Parents.{parents-irreflexive}
use koanf_etcd.Path.Collision.{
  clash, IsAbove, clash-IsAbove, blocked, Refused, blocked-nothing, add_clean, enter_parts,
}

abbrev pub keys : {V : Type 0} → Map V → List Bytes
keys [] = []
keys ((k, v) ∷ m) = k ∷ keys m

abbrev any_key : (Bytes → Bool) → List Bytes → Bool
any_key f [] = false
any_key f (k ∷ ks) = f k || any_key f ks

abbrev either : Bytes → Bytes → Bytes → Bool
either d a k = clash d a k || clash d k a

-- Some two keys clash, the later one with an earlier or the other way round.
abbrev pair_clash : Bytes → List Bytes → Bool
pair_clash d [] = false
pair_clash d (k ∷ ks) = any_key (λ a. either d a k) ks || pair_clash d ks

any_key-or :
    (f g h : Bytes → Bool) (ks : List Bytes)
    → ((a : Bytes) → h a ≡ (f a || g a))
    → any_key h ks ≡ (any_key f ks || any_key g ks)
any_key-or f g h [] e = refl
any_key-or f g h (k ∷ ks) e = ground (arith, e k, any_key-or f g h ks e)

any_key-false :
    (f : Bytes → Bool) (ks : List Bytes) (a : Bytes)
    → any_key f ks ≡ false
    → contains ks a ≡ true
    → f a ≡ false
any_key-false f [] a h m = cc
any_key-false f (k ∷ ks) a h m = ground (arith, str_eq_iff k a, any_key-false f ks a)

any_key-true :
    (f : Bytes → Bool) (ks : List Bytes)
    → any_key f ks ≡ true
    → (a : Bytes) × (contains ks a ≡ true) × (f a ≡ true)
any_key-true f [] h = cc
any_key-true f (k ∷ ks) h = elim (Bool-cases (f k)) [
  | inl here ↦ (k, ground (arith, str_eq_iff k k), here)
  | inr other ↦ let (a, m, e) = any_key-true f ks (ground arith) in (a, ground arith, e)
]

-- The cleaned map: each key that has a path, under its path; the last of two on one path wins.
abbrev pub clean_map : {V : Type 0} → Bytes → Map V → Map V → Map V
clean_map d [] out = out
clean_map d ((k, v) ∷ m) out = clean_map d m (add_clean d k v out)

module _ {V : Type 0} (d : Bytes) where
  place_all_cases :
      (m : Map V) (s : Seen V)
      → (((any_key (blocked d s) (keys m) || pair_clash d (keys m)) ≡ true)
          × Refused (place_all d m s))
        ⊎ (((any_key (blocked d s) (keys m) || pair_clash d (keys m)) ≡ false)
            × ((t : Seen V) × (place_all d m s ≡ ok t) × (t.cleaned ≡ clean_map d m s.cleaned)))
  place_all_cases [] s = inr (refl, (s, unfold place_all in refl, refl))
  place_all_cases ((k, v) ∷ m) s = elim (enter_parts d k (split_clean_path k d) v s refl) [
    | inl (hit, (x, stops, is)) ↦ inl (ground arith, (x, unfold place_all in rw stops refl, is))
    | inr (miss, (t, goes, cleaned, grown)) ↦
        let sum = any_key-or (blocked d s) (λ a. either d a k) (blocked d t) (keys m) grown in
        elim (place_all_cases m t) [
          | inl (hit, (x, stops, is)) ↦
              inl (ground (arith, sum), (x, unfold place_all in rw goes stops, is))
          | inr (clear, (u, ends, whole)) ↦ inr (
            ground (arith, sum),
            (u, unfold place_all in rw goes ends, whole ∙ ap (clean_map d m) cleaned),
          )
        ]
  ]

fresh_blocks_none :
    (V : Type 0) (d : Bytes) (ks : List Bytes) → any_key (blocked {V = V} d nothing_seen) ks ≡ false
fresh_blocks_none V d [] = refl
fresh_blocks_none V d (k ∷ ks) = ground (arith, blocked-nothing V d k, fresh_blocks_none V d ks)

-- Two keys that clash, in whatever order the loop meets them.
clash_of_pair :
    (d : Bytes) (ks : List Bytes)
    → pair_clash d ks ≡ true
    → (a : Bytes) × (b : Bytes) × (contains ks a ≡ true)
      × (contains ks b ≡ true)
      × (clash d a b ≡ true)
clash_of_pair d [] h = cc
clash_of_pair d (k ∷ ks) h = elim (Bool-cases (any_key (λ a. either d a k) ks)) [
  | inl first ↦
      let (a, m, e) = any_key-true (λ a. either d a k) ks first in
      elim (Bool-cases (clash d a k)) [
        | inl up ↦ (a, k, ground arith, ground (arith, str_eq_iff k k), up)
        | inr down ↦ (k, a, ground (arith, str_eq_iff k k), ground arith, ground arith)
      ]
  | inr later ↦
      let (a, b, ma, mb, e) = clash_of_pair d ks (ground arith) in
      (a, b, ground arith, ground arith, e)
]

clash-irreflexive : (d k : Bytes) → d ≢ [] → clash d k k ≡ false
unfolding clash
clash-irreflexive d k h = ground (arith, parents-irreflexive (split_clean_path k d) d h)

pair_of_clash :
    (d : Bytes) (ks : List Bytes) (a b : Bytes)
    → d ≢ []
    → contains ks a ≡ true
    → contains ks b ≡ true
    → clash d a b ≡ true
    → pair_clash d ks ≡ true
pair_of_clash d [] a b hd ma mb e = cc
pair_of_clash d (k ∷ ks) a b hd ma mb e = elim (Bool-cases (pair_clash d (k ∷ ks))) [
  | inl found ↦ found
  | inr clear ↦ ground (
    arith,
    str_eq_iff k a,
    str_eq_iff k b,
    clash-irreflexive d k hd,
    any_key-false (λ x. either d x k) ks a (ground arith),
    any_key-false (λ x. either d x k) ks b (ground arith),
    pair_of_clash d ks a b hd,
  )
]

-- Two keys of the map of which one lies above the other.
abbrev pub Clash : {V : Type 0} → Map V → Bytes → Type 0
Clash flat d =
    (a : Bytes) × (b : Bytes) × (contains (keys flat) a ≡ true)
    × (contains (keys flat) b ≡ true)
    × IsAbove d a b

-- Either two keys of the map clash, as the path of the one is that of a proper part of the front of
-- the other's parts, and the result is ErrPathCollision, or no two do, and the result is what
-- maps.Unflatten makes of the cleaned map.
pub unflatten_map_cases :
    {V : Type 0} (u : Map V → Bytes → Map V) (flat : Map V) (d : Bytes)
    → d ≢ []
    → (Clash flat d × ((e : Error) × (unflatten_map u flat d ≡ err e) × Is path_collision e))
      ⊎ (¬ Clash flat d × (unflatten_map u flat d ≡ ok (u (clean_map d flat []) d)))
unfolding unflatten_map
unflatten_map_cases u flat [] hd = absurd (hd refl)
unflatten_map_cases {V} u flat (c ∷ d) hd =
    let start = fresh_blocks_none V (c ∷ d) (keys flat) in
    elim (place_all_cases (c ∷ d) flat nothing_seen) [
      | inl (hit, (e, stops, is)) ↦ inl (
        (let (a, b, ma, mb, clashes) = clash_of_pair (c ∷ d) (keys flat) (ground (arith, start)) in
            (a, b, ma, mb, (clash-IsAbove (c ∷ d) a b).0 clashes)),
        (e, unfold place_all in rw stops refl, is),
      )
      | inr (clear, (t, goes, cleaned)) ↦ inr (
        λ (a, b, ma, mb, e). ground (
          arith,
          pair_of_clash (c ∷ d) (keys flat) a b hd ma mb ((clash-IsAbove (c ∷ d) a b).1 e),
        ),
        unfold place_all in rw goes (ap (λ m. ok (u m (c ∷ d))) cleaned),
      )
    ]

-- Go ranges over a map in a random order. Maps with the same keys and values, however they are
-- ordered, are refused together; the verdict is the same on every run.
pub unflatten_map-order :
    {V : Type 0} (u : Map V → Bytes → Map V) (flat other : Map V) (d : Bytes)
    → d ≢ []
    → ((k : Bytes) → contains (keys flat) k ≡ contains (keys other) k)
    → ((e : Error) × (unflatten_map u flat d ≡ err e))
    → (e : Error) × (unflatten_map u other d ≡ err e) × Is path_collision e
unflatten_map-order u flat other d hd same (e, stops) = elim (unflatten_map_cases u other d hd) [
  | inl (_, refused) ↦ refused
  | inr (free, _) ↦ elim (unflatten_map_cases u flat d hd) [
    | inl ((a, b, ma, mb, clashes), _) ↦
        absurd (free (a, b, sym (same a) ∙ ma, sym (same b) ∙ mb, clashes))
    | inr (_, goes) ↦ cc
  ]
]
