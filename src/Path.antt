-- ===== src/Path.antt =====
-- The flat-to-nested step of a read (read.go): `splitCleanPath` and `unflattenMap`.
pub mod Clean
pub mod Parents
pub mod Collision
pub mod Order
mod Tests
use koanf_etcd.Base.{
  Bool, true, false, List, [], ◌∷◌, ◌++◌, reverse, Bytes, is_empty, contains, insert, if◌then◌else◌,
}
use koanf_etcd.Errors.{◌>>=◌, Result, ok, err, sentinel, wrap, path_collision, Site, Error}
use koanf_etcd.Errors.{shadows_subtree, parent_is_leaf}
use koanf_etcd.Strings.{split, join}

-- A `map[string]any`, as its pairs.
abbrev pub Map : Type 0 → Type 0
Map V = List (Bytes × V)

-- `for len(parts) > 0 && parts[0] == "" { parts = parts[1:] }`
drop_empty : List Bytes → List Bytes
drop_empty [] = []
drop_empty (p ∷ ps) = if is_empty p then drop_empty ps else p ∷ ps

-- The same from the other end.
drop_empty_end : List Bytes → List Bytes
unfolding drop_empty
drop_empty_end ps = reverse (drop_empty (reverse ps))

unfoldable pub split_clean_path : Bytes → Bytes → List Bytes
unfolding split drop_empty drop_empty_end
split_clean_path s delim = drop_empty_end (drop_empty (split s delim))

-- `strings.Join(parts[:i], delim)` for 1 ≤ i < len(parts), behind the parts in `done`.
parents_from : List Bytes → List Bytes → Bytes → List Bytes
parents_from seen [] delim = []
parents_from seen (p ∷ []) delim = []
parents_from seen (p ∷ q ∷ ps) delim =
    join (seen ++ p ∷ []) delim ∷ parents_from (seen ++ p ∷ []) (q ∷ ps) delim

pub parents : List Bytes → Bytes → List Bytes
unfolding parents_from join
parents ps delim = parents_from [] ps delim

-- The state of the loop over the flat map.
pub record Seen (V : Type 0) : Type 0 where
  pub cleaned : Map V
  pub leaves : List Bytes
  pub subtrees : List Bytes

-- The walk over the parents: none may be a leaf, and each becomes a subtree.
walk : Bytes → List Bytes → List Bytes → List Bytes → Result (List Bytes)
walk path leaves subtrees [] = ok subtrees
walk path leaves subtrees (parent ∷ ps) =
    if contains leaves parent
    then err (wrap (parent_is_leaf path parent) (sentinel path_collision))
    else walk path leaves (parent ∷ subtrees) ps

module _ {V : Type 0} where
  -- One round of the loop, for an entry whose path has parts left.
  place : Bytes → List Bytes → V → Seen V → Result (Seen V)
  unfolding walk
  place path above v s =
      if contains s.subtrees path
      then err (wrap (shadows_subtree path) (sentinel path_collision))
      else (do
        subtrees ← walk path s.leaves s.subtrees above
        ok (record {
          cleaned = insert path v s.cleaned;
          leaves = path ∷ s.leaves;
          subtrees = subtrees;
        }))

  -- A path with no parts is skipped.
  pub enter : Bytes → List Bytes → V → Seen V → Result (Seen V)
  unfolding place join parents
  enter delim [] v s = ok s
  enter delim (p ∷ ps) v s = place (join (p ∷ ps) delim) (parents (p ∷ ps) delim) v s

  -- `for k, v := range flat`
  place_all : Bytes → Map V → Seen V → Result (Seen V)
  unfolding enter split_clean_path
  place_all delim [] s = ok s
  place_all delim ((k, v) ∷ flat) s = do
    t ← enter delim (split_clean_path k delim) v s
    place_all delim flat t

  abbrev nothing_seen : Seen V
  nothing_seen = record { cleaned = []; leaves = []; subtrees = [] }

  copy : Map V → Map V → Map V
  copy [] out = out
  copy ((k, v) ∷ flat) out = copy flat (insert k v out)

  -- `unflatten` is maps.Unflatten of github.com/knadh/koanf. The pairs of `flat` stand in the order
  -- in which Go ranges over the map.
  unfoldable pub unflatten_map : (Map V → Bytes → Map V) → Map V → Bytes → Result (Map V)
  unfolding place_all copy
  unflatten_map unflatten flat delim =
      if is_empty delim
      then ok (copy flat [])
      else (do s ← place_all delim flat nothing_seen; ok (unflatten s.cleaned delim))
