-- ===== src/Range/Laws.antt =====
-- A scan from a prefix to its range end meets exactly the keys with that prefix.
use mathlib.Core.List.{reverse-cons, reverse-append}
use koanf_etcd.Base.{
  ℕ, ◌+◌, ◌≤◌, false, not, ◌&&◌, Option, none, some, Option-cases, [], ◌∷◌, ◌++◌, reverse, Bytes,
  ltb, has_prefix, str_lt, str_eq, All, ◌≡◌, ◌≢◌, refl, ap, ◌∙◌, inl, inr, arith, if◌then◌else◌,
}
use koanf_etcd.Client.{in_range}
use koanf_etcd.Range.{bump_last, prefix_end}

-- The same from the first byte on: the last byte below 0xff is the one that grows.
bump : Bytes → Option Bytes
bump [] = none
bump (c ∷ p) = elim (bump p) [
  | some q ↦ some (c ∷ q)
  | none ↦ if ltb c 0xff then some ((c + 1) ∷ []) else none
]

abbrev after : ℕ → Option Bytes → Option Bytes
after c (some q) = some (c ∷ q)
after c none = if ltb c 0xff then some ((c + 1) ∷ []) else none

bump_last-concat : (bs : Bytes) (c : ℕ) → bump_last (bs ++ c ∷ []) ≡ after c (bump_last bs)
unfolding bump_last
bump_last-concat [] c = refl
bump_last-concat (b ∷ bs) c =
    ground (arith, bump_last-concat bs c, reverse-append ((b + 1) ∷ bs) (c ∷ []))

bump_last-reverse : (p : Bytes) → bump_last (reverse p) ≡ bump p
unfolding bump
bump_last-reverse [] = unfold bump_last in refl
bump_last-reverse (c ∷ p) =
    ap bump_last (reverse-cons c p)
    ∙ (bump_last-concat (reverse p) c ∙ ground (arith, bump_last-reverse p))

abbrev pub IsByte : ℕ → Type 0
IsByte c = c ≤ 0xff

has_prefix-no_bump :
    (p k : Bytes) → All IsByte k → bump p ≡ none → has_prefix p k ≡ not (str_lt k p)
unfolding bump
has_prefix-no_bump [] k h e = refl
has_prefix-no_bump (c ∷ p) [] h e = refl
has_prefix-no_bump (c ∷ p) (d ∷ k) h e = ground (arith, has_prefix-no_bump p k)

has_prefix-bump :
    (p q k : Bytes)
    → All IsByte k
    → bump p ≡ some q
    → has_prefix p k ≡ (not (str_lt k p) && str_lt k q)
unfolding bump
has_prefix-bump [] q k h e = cc
has_prefix-bump (c ∷ p) q [] h e = refl
has_prefix-bump (c ∷ p) q (d ∷ k) h e = elim (Option-cases (bump p)) [
  | inl stuck ↦ ground (arith, stuck, has_prefix-no_bump p k)
  | inr (r, grown) ↦ ground (arith, grown, has_prefix-bump p r k)
]

bump-ne-nil : (p q : Bytes) → bump p ≡ some q → q ≢ []
unfolding bump
bump-ne-nil [] q e = cc
bump-ne-nil (c ∷ p) q e = ground arith

bump-ne-nul : (p q : Bytes) → bump p ≡ some q → str_eq q (0 ∷ []) ≡ false
unfolding bump
bump-ne-nul [] q e = cc
bump-ne-nul (c ∷ []) q e = ground arith
bump-ne-nul (c ∷ d ∷ p) q e = elim (Option-cases (bump (d ∷ p))) [
  | inl stuck ↦ ground (arith, stuck)
  | inr (r, grown) ↦ ground (arith, grown, bump-ne-nil (d ∷ p) r)
]

-- The keys of the range from a prefix to its range end are exactly the keys with that prefix, for
-- every prefix, the empty one and those of 0xff bytes alone included.
pub in_range-prefix_end :
    (prefix k : Bytes) → All IsByte k → in_range prefix (prefix_end prefix) k ≡ has_prefix prefix k
unfolding prefix_end
in_range-prefix_end [] k h = ground arith
in_range-prefix_end (c ∷ p) k h = elim (Option-cases (bump (c ∷ p))) [
  | inl stuck ↦
      rw (bump_last-reverse (c ∷ p), stuck) (ground (arith, has_prefix-no_bump (c ∷ p) k h stuck))
  | inr (q, grown) ↦
      rw (bump_last-reverse (c ∷ p), grown)
        (ground (arith, has_prefix-bump (c ∷ p) q k h grown, bump-ne-nul (c ∷ p) q grown))
]
