-- ===== src/Range/Tests.antt =====
-- Tests of the range end, and the theorem at a prefix whose last byte carries.
use koanf_etcd.Base.{[], ◌∷◌, ◌++◌, codes, has_prefix, ◌≡◌, refl, arith}
use koanf_etcd.Client.{in_range}
use koanf_etcd.Range.{prefix_end}
use koanf_etcd.Range.Laws.{in_range-prefix_end}

prefix_end_tests :
    (prefix_end (codes "/svc/") ≡ codes "/svc0")
    × (prefix_end (codes "a" ++ 0xff ∷ 0xff ∷ []) ≡ codes "b")
    × (prefix_end (0xff ∷ []) ≡ 0 ∷ [])
    × (prefix_end [] ≡ 0 ∷ [])
unfolding prefix_end
prefix_end_tests = (refl, refl, refl, refl)

in_range-prefix_end_example :
    in_range (codes "a" ++ 0xff ∷ []) (prefix_end (codes "a" ++ 0xff ∷ [])) (codes "ab")
    ≡ has_prefix (codes "a" ++ 0xff ∷ []) (codes "ab")
in_range-prefix_end_example =
    in_range-prefix_end (codes "a" ++ 0xff ∷ []) (codes "ab") (omega arith)
