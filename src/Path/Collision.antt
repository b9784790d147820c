-- ===== src/Path/Collision.antt =====
-- When `unflattenMap` reports a path collision. The loop meets the keys in the random order of a
-- Go map; its verdict is here put as a test of all pairs of keys.
use koanf_etcd.Base.{
  ◌≢◌, ◌↔◌, Bool, true, false, not, ◌&&◌, ◌||◌, List, [], ◌∷◌, Bytes, str_eq, str_eq_iff, contains,
  insert, Bool-cases, ◌≡◌, ◌⊎◌, inl, inr, refl, arith, if◌then◌else◌,
}
use koanf_etcd.Errors.{Result, ok, err, Error, Is, sentinel, wrap, path_collision}
use koanf_etcd.Errors.{parent_is_leaf, shadows_subtree}
use koanf_etcd.Strings.{join}
use koanf_etcd.Path.Parents.{IsParent, contains-parents}
use koanf_etcd.Path.{
  Map, Seen, split_clean_path, parents_from, parents, walk, place, enter, nothing_seen,
}

-- The path of a key after cleaning, and the paths of the sub-trees that it lies in.
pub node : Bytes → Bytes → Bytes
node d k = join (split_clean_path k d) d

pub above : Bytes → Bytes → List Bytes
above d k = parents (split_clean_path k d) d

abbrev is_nil : List Bytes → Bool
is_nil [] = true
is_nil (p ∷ ps) = false

pub has_path : Bytes → Bytes → Bool
has_path d k = not (is_nil (split_clean_path k d))

-- Key `a` would put a leaf where key `b` needs a sub-tree.
unfoldable pub clash : Bytes → Bytes → Bytes → Bool
unfolding has_path above node
clash d a b = has_path d a && contains (above d b) (node d a)

-- The path of key `a` is the path of a proper part of the front of the parts of key `b`.
abbrev pub IsAbove : Bytes → Bytes → Bytes → Type 0
IsAbove d a b =
    (split_clean_path a d ≢ [])
    × IsParent [] (split_clean_path b d) d (join (split_clean_path a d) d)

is_nil-false : (ps : List Bytes) → (is_nil ps ≡ false) ↔ (ps ≢ [])
is_nil-false [] = (λ h. cc, λ h. absurd (h refl))
is_nil-false (p ∷ ps) = (λ h. λ e. cc, λ h. refl)

pub clash-IsAbove : (d a b : Bytes) → (clash d a b ≡ true) ↔ IsAbove d a b
unfolding clash has_path above node
clash-IsAbove d a b = (
  λ h. (
    (is_nil-false (split_clean_path a d)).0 (ground arith),
    (contains-parents (split_clean_path b d) d (join (split_clean_path a d) d)).0 (ground arith),
  ),
  λ (some_part, parent). ground (
    arith,
    (is_nil-false (split_clean_path a d)).1 some_part,
    (contains-parents (split_clean_path b d) d (join (split_clean_path a d) d)).1 parent,
  ),
)

abbrev pub any_in : List Bytes → List Bytes → Bool
any_in leaves [] = false
any_in leaves (p ∷ ps) = contains leaves p || any_in leaves ps

str_eq_sym : (s t : Bytes) → str_eq s t ≡ str_eq t s
str_eq_sym s t = ground (arith, str_eq_iff s t, str_eq_iff t s)

any_in-cons :
    (x : Bytes) (leaves ps : List Bytes)
    → any_in (x ∷ leaves) ps ≡ (contains ps x || any_in leaves ps)
any_in-cons x leaves [] = refl
any_in-cons x leaves (p ∷ ps) = ground (arith, any_in-cons x leaves ps, str_eq_sym x p)

pub any_in-nil : (ps : List Bytes) → any_in [] ps ≡ false
any_in-nil [] = refl
any_in-nil (p ∷ ps) = any_in-nil ps

-- The walk over the parents stops at a leaf, and otherwise adds all of them to the sub-trees.
walk_cases :
    (path : Bytes) (leaves subtrees ps : List Bytes)
    → ((any_in leaves ps ≡ true)
        × ((e : Error) × (walk path leaves subtrees ps ≡ err e) × Is path_collision e))
      ⊎ ((any_in leaves ps ≡ false)
          × ((t : List Bytes) × (walk path leaves subtrees ps ≡ ok t)
              × ((x : Bytes) → contains t x ≡ (contains ps x || contains subtrees x))))
unfolding walk
walk_cases path leaves subtrees [] = inr (refl, (subtrees, refl, λ x. refl))
walk_cases path leaves subtrees (p ∷ ps) = elim (Bool-cases (contains leaves p)) [
  | inl hit ↦
      inl
        (ground arith, (wrap (parent_is_leaf path p) (sentinel path_collision), rw hit refl, refl))
  | inr miss ↦ elim (walk_cases path leaves (p ∷ subtrees) ps) [
    | inl (found, (e, stops, is)) ↦ inl (ground arith, (e, rw miss stops, is))
    | inr (clear, (t, goes, holds)) ↦
        inr (ground arith, (t, rw miss goes, λ x. ground (arith, holds x)))
  ]
]

-- Whether the loop, in state `s`, refuses the key.
pub blocked : {V : Type 0} → Bytes → Seen V → Bytes → Bool
unfolding has_path above node
blocked d s k = (has_path d k && contains s.subtrees (node d k)) || any_in s.leaves (above d k)

pub blocked-nothing : (V : Type 0) (d k : Bytes) → blocked {V = V} d nothing_seen k ≡ false
unfolding blocked
blocked-nothing V d k = ground (arith, any_in-nil (above d k))

abbrev pub Refused : {V : Type 0} → Result (Seen V) → Type 0
Refused r = (e : Error) × (r ≡ err e) × Is path_collision e

-- What a key adds to the cleaned map.
unfoldable pub add_clean : {V : Type 0} → Bytes → Bytes → V → Map V → Map V
unfolding has_path node
add_clean d k v m = if has_path d k then insert (node d k) v m else m

module _ {V : Type 0} (d : Bytes) where
  -- A round either refuses the key, or adds its clashes to those of the keys to come.
  place_cases :
      (path : Bytes) (ps : List Bytes) (v : V) (s : Seen V)
      → (((contains s.subtrees path || any_in s.leaves ps) ≡ true) × Refused (place path ps v s))
        ⊎ (((contains s.subtrees path || any_in s.leaves ps) ≡ false)
            × ((t : Seen V) × (place path ps v s ≡ ok t)
                × (t.cleaned ≡ insert path v s.cleaned)
                × (t.leaves ≡ path ∷ s.leaves)
                × ((x : Bytes) → contains t.subtrees x ≡ (contains ps x || contains s.subtrees x))))
  place_cases path ps v s = elim (Bool-cases (contains s.subtrees path)) [
    | inl hit ↦ inl (
      ground arith,
      (wrap (shadows_subtree path) (sentinel path_collision), unfold place in rw hit refl, refl),
    )
    | inr miss ↦ elim (walk_cases path s.leaves s.subtrees ps) [
      | inl (found, (e, stops, is)) ↦
          inl (ground arith, (e, unfold place in rw (miss, stops) refl, is))
      | inr (clear, (t, goes, holds)) ↦ inr (
        ground arith,
        (
          record { cleaned = insert path v s.cleaned; leaves = path ∷ s.leaves; subtrees = t },
          unfold place in rw (miss, goes) refl,
          refl,
          refl,
          holds,
        ),
      )
    ]
  ]

  abbrev pub Grown : Bytes → Seen V → Seen V → Type 0
  Grown k s t = (a : Bytes) → blocked d t a ≡ (blocked d s a || (clash d a k || clash d k a))

  pub enter_parts :
      (k : Bytes) (parts : List Bytes) (v : V) (s : Seen V)
      → split_clean_path k d ≡ parts
      → ((blocked d s k ≡ true) × Refused (enter d parts v s))
        ⊎ ((blocked d s k ≡ false)
            × ((t : Seen V) × (enter d parts v s ≡ ok t)
                × (t.cleaned ≡ add_clean d k v s.cleaned)
                × Grown k s t))
  unfolding blocked clash parents parents_from add_clean
  enter_parts k [] v s e =
      inr (rw e refl, (s, unfold enter in refl, rw e refl, λ a. rw e (ground arith)))
  enter_parts k (p ∷ ps) v s e = elim (place_cases (join (p ∷ ps) d) (parents (p ∷ ps) d) v s) [
    | inl (hit, (x, stops, is)) ↦ inl (rw e hit, (x, unfold enter in stops, is))
    | inr (miss, (t, goes, cleaned, leaves, subtrees)) ↦ inr (
      rw e miss,
      (
        t,
        unfold enter in goes,
        rw e cleaned,
        λ a.
            rw (e, leaves)
              (ground
                (arith, subtrees (node d a), any_in-cons (join (p ∷ ps) d) s.leaves (above d a))),
      ),
    )
  ]
