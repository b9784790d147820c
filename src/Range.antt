-- ===== src/Range.antt =====
-- The range end of a prefix scan (read.go).
pub mod Laws
mod Tests
use koanf_etcd.Base.{
  ℕ, ◌+◌, Bool, Option, none, some, List, [], ◌∷◌, reverse, Bytes, is_empty, ltb, if◌then◌else◌,
}

-- The loop over `i`, from the last byte down: `bs` is `b[:i+1]`, last byte first.
bump_last : Bytes → Option Bytes
bump_last [] = none
bump_last (b ∷ bs) = if ltb b 0xff then some (reverse ((b + 1) ∷ bs)) else bump_last bs

abbrev or_nul : Option Bytes → Bytes
or_nul none = 0 ∷ []
or_nul (some b) = b

unfoldable pub prefix_end : Bytes → Bytes
unfolding bump_last
prefix_end prefix = if is_empty prefix then 0 ∷ [] else or_nul (bump_last (reverse prefix))
