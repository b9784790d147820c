-- ===== src/Strings/Split.antt =====
-- Joining the parts of a split gives the text back.
use koanf_etcd.Base.{
  false, All, ℕ, zero, suc, ◌-◌, List, [], ◌∷◌, ◌++◌, append_assoc, append-nil, Bytes, has_prefix,
  has_prefix-drop, length, drop, Bool-cases, ◌≡◌, ◌≢◌, refl, sym, ap, ◌∙◌, inl, inr, arith,
}
use koanf_etcd.Strings.{split_from, split, join}

split_from-ne-nil : (sep : Bytes) (skip : ℕ) (cur s : Bytes) → split_from sep skip cur s ≢ []
unfolding split_from
split_from-ne-nil sep skip cur [] = λ e. cc
split_from-ne-nil sep (suc skip) cur (c ∷ s) = split_from-ne-nil sep skip cur s
split_from-ne-nil sep zero cur (c ∷ s) = ground (arith, split_from-ne-nil sep 0 (cur ++ c ∷ []) s)

pub split-ne-nil : (s sep : Bytes) → split s sep ≢ []
unfolding split
split-ne-nil s sep = split_from-ne-nil sep 0 [] s

pub join-cons :
    (p : Bytes) (ps : List Bytes) (sep : Bytes)
    → ps ≢ []
    → join (p ∷ ps) sep ≡ p ++ (sep ++ join ps sep)
unfolding join
join-cons p [] sep h = absurd (h refl)
join-cons p (q ∷ ps) sep h = refl

join-split_from :
    (sep : Bytes) (skip : ℕ) (cur s : Bytes)
    → sep ≢ []
    → join (split_from sep skip cur s) sep ≡ cur ++ drop skip s
unfolding split_from
join-split_from sep zero cur [] h = unfold join in sym (append-nil cur)
join-split_from sep (suc skip) cur [] h = unfold join in sym (append-nil cur)
join-split_from sep (suc skip) cur (c ∷ s) h = join-split_from sep skip cur s h
join-split_from [] zero cur (c ∷ s) h = absurd (h refl)
join-split_from (b ∷ sep) zero cur (c ∷ s) h = elim (Bool-cases (has_prefix (b ∷ sep) (c ∷ s))) [
  | inl cut ↦
      let rest = split_from (b ∷ sep) (length sep) [] s in
      let ih : join rest (b ∷ sep) ≡ drop (length sep) s =
        join-split_from (b ∷ sep) (length sep) [] s h in
      let size : suc (length sep) - 1 ≡ length sep = omega arith in
      rw
        (
          cut,
          size,
          join-cons cur rest (b ∷ sep) (split_from-ne-nil (b ∷ sep) (length sep) [] s),
          ih,
        )
        (ap (λ t. cur ++ t) (sym (has_prefix-drop (b ∷ sep) (c ∷ s) cut)))
  | inr kept ↦
      rw kept (join-split_from (b ∷ sep) 0 (cur ++ c ∷ []) s h ∙ append_assoc cur (c ∷ []) s)
]

-- Joining the parts of a split gives the text back.
pub join-split : (s sep : Bytes) → sep ≢ [] → join (split s sep) sep ≡ s
unfolding split
join-split s sep h = join-split_from sep 0 [] s h

-- The separator stands nowhere in the text.
abbrev pub Lacks : Bytes → Bytes → Type 0
Lacks sep [] = Unit
Lacks sep (c ∷ s) = (has_prefix sep (c ∷ s) ≡ false) × Lacks sep s

-- It begins nowhere in `cur`, when `s` follows.
abbrev Clear : Bytes → Bytes → Bytes → Type 0
Clear sep [] s = Unit
Clear sep (c ∷ cur) s = (has_prefix sep (c ∷ (cur ++ s)) ≡ false) × Clear sep cur s

has_prefix-longer : (p s t : Bytes) → has_prefix p (s ++ t) ≡ false → has_prefix p s ≡ false
has_prefix-longer [] s t h = cc
has_prefix-longer (c ∷ p) [] t h = refl
has_prefix-longer (c ∷ p) (d ∷ s) t h = ground (arith, has_prefix-longer p s t)

Clear-Lacks : (sep cur s : Bytes) → Clear sep cur s → Lacks sep cur
Clear-Lacks sep [] s h = tt
Clear-Lacks sep (c ∷ cur) s (h, hs) =
    (has_prefix-longer sep (c ∷ cur) s h, Clear-Lacks sep cur s hs)

Clear-concat :
    (sep cur : Bytes) (c : ℕ) (s : Bytes)
    → Clear sep cur (c ∷ s)
    → has_prefix sep (c ∷ s) ≡ false
    → Clear sep (cur ++ c ∷ []) s
Clear-concat sep [] c s h k = (k, tt)
Clear-concat sep (d ∷ cur) c s (h, hs) k = (
  ap (λ t. has_prefix sep (d ∷ t)) (append_assoc cur (c ∷ []) s) ∙ h,
  Clear-concat sep cur c s hs k,
)

All-split_from :
    (sep : Bytes) (skip : ℕ) (cur s : Bytes)
    → Clear sep cur (drop skip s)
    → All (Lacks sep) (split_from sep skip cur s)
unfolding split_from
All-split_from sep zero cur [] h = (Clear-Lacks sep cur [] h, tt)
All-split_from sep (suc skip) cur [] h = (Clear-Lacks sep cur [] h, tt)
All-split_from sep (suc skip) cur (c ∷ s) h = All-split_from sep skip cur s h
All-split_from sep zero cur (c ∷ s) h = elim (Bool-cases (has_prefix sep (c ∷ s))) [
  | inl cut ↦ rw cut (Clear-Lacks sep cur (c ∷ s) h, All-split_from sep (length sep - 1) [] s tt)
  | inr kept ↦ rw kept (All-split_from sep 0 (cur ++ c ∷ []) s (Clear-concat sep cur c s h kept))
]

-- No part of a split holds the separator.
pub All-split : (s sep : Bytes) → All (Lacks sep) (split s sep)
unfolding split
All-split s sep = All-split_from sep 0 [] s tt
