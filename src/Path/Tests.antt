-- ===== src/Path/Tests.antt =====
-- Tests of the flat-to-nested step, and its theorems at concrete maps.
use koanf_etcd.Base.{
  All, ℕ, Bool, false, ◌||◌, arith, [], ◌∷◌, ◌++◌, Bytes, codes, contains, true, reverse, ◌≡◌, ◌⊎◌,
  refl,
}
use koanf_etcd.Errors.{err, ok, sentinel, wrap, shadows_subtree, Error, Is, path_collision}
use koanf_etcd.Strings.{join}
use koanf_etcd.Strings.Split.{Lacks}
use koanf_etcd.Path.{Map, split_clean_path, unflatten_map}
use koanf_etcd.Path.Clean.{repeat, starts_full, split_clean_path_lem}
use koanf_etcd.Path.Order.{keys, Clash, clean_map, unflatten_map_cases, unflatten_map-order}

abbrev dot : Bytes
dot = codes "."

abbrev kept : Map ℕ → Bytes → Map ℕ
kept m d = m

abbrev tidy : Map ℕ
tidy = (codes "a.b", 1) ∷ (codes ".a.c.", 2) ∷ (codes "..", 3) ∷ []

abbrev colliding : Map ℕ
colliding = (codes "db.host", 1) ∷ (codes "db", 2) ∷ []

split_clean_path_tests :
    (split_clean_path (codes ".app..db.") dot ≡ codes "app" ∷ [] ∷ codes "db" ∷ [])
    × (split_clean_path (codes "a::b::") (codes "::") ≡ codes "a" ∷ codes "b" ∷ [])
    × (split_clean_path (codes "...") dot ≡ [])
unfolding split_clean_path
split_clean_path_tests = (refl, refl, refl)

unflatten_map_tests :
    (unflatten_map kept tidy dot ≡ ok ((codes "a.b", 1) ∷ (codes "a.c", 2) ∷ []))
    × (unflatten_map kept colliding dot
        ≡ err (wrap (shadows_subtree (codes "db")) (sentinel path_collision)))
    × (unflatten_map kept colliding [] ≡ ok colliding)
unfolding unflatten_map
unflatten_map_tests = (refl, refl, refl)

split_clean_path_lem_example :
    All (Lacks dot) (split_clean_path (codes ".a.") dot)
    × (starts_full (split_clean_path (codes ".a.") dot) ≡ true)
    × (starts_full (reverse (split_clean_path (codes ".a.") dot)) ≡ true)
    × ((a : ℕ) × (b : ℕ) × (codes ".a."
          ≡ repeat a dot ++ (join (split_clean_path (codes ".a.") dot) dot ++ repeat b dot)))
split_clean_path_lem_example = split_clean_path_lem (codes ".a.") dot (λ e. cc)

unflatten_map_cases_example :
    (Clash colliding dot
      × ((e : Error) × (unflatten_map kept colliding dot ≡ err e) × Is path_collision e))
    ⊎ (¬ Clash colliding dot × (unflatten_map kept colliding dot ≡ ok (clean_map dot colliding [])))
unflatten_map_cases_example = unflatten_map_cases kept colliding dot (λ e. cc)

or_swap : (a b : Bool) → (a || (b || false)) ≡ (b || (a || false))
or_swap a b = ground arith

same_keys : (k : Bytes) → contains (keys colliding) k ≡ contains (keys (reverse colliding)) k
same_keys k = or_swap _ _

unflatten_map-order_example :
    (e : Error) × (unflatten_map kept (reverse colliding) dot ≡ err e) × Is path_collision e
unflatten_map-order_example =
    unflatten_map-order kept colliding (reverse colliding) dot (λ e. cc) same_keys
      (_, unflatten_map_tests.1)
