-- ===== src/Path/Parents.antt =====
-- A path is not one of its own parents.
use mathlib.Core.List.{concat-ne-nil}
use koanf_etcd.Base.{
  ℕ, zero, suc, take, str_eq_refl, ◌↔◌, sym, ap, ◌<◌, true, false, List, [], ◌∷◌, ◌++◌,
  append_assoc, Bytes, str_eq, str_eq_iff, contains, Bool-cases, length, length-append, ◌≡◌, ◌≢◌,
  inl, inr, refl, ◌∙◌, subst, arith,
}
use koanf_etcd.Strings.{join}
use koanf_etcd.Strings.Split.{join-cons}
use koanf_etcd.Path.{parents_from, parents}

append-ne-nil : (xs ys : List Bytes) → xs ≢ [] → xs ++ ys ≢ []
append-ne-nil [] ys h = absurd (h refl)
append-ne-nil (x ∷ xs) ys h = λ e. cc

join-append :
    (xs ys : List Bytes) (d : Bytes)
    → xs ≢ []
    → ys ≢ []
    → join (xs ++ ys) d ≡ join xs d ++ (d ++ join ys d)
join-append [] ys d h k = absurd (h refl)
join-append (x ∷ []) ys d h k = join-cons x ys d k ∙ unfold join in refl
join-append (x ∷ y ∷ xs) ys d h k =
    join-cons x ((y ∷ xs) ++ ys) d (λ e. cc)
    ∙ rw (join-cons x (y ∷ xs) d (λ e. cc), join-append (y ∷ xs) ys d (λ e. cc) k)
        (simp append_assoc)

length-pos : (d : Bytes) → d ≢ [] → 0 < length d
length-pos [] h = absurd (h refl)
length-pos (c ∷ d) h = omega arith

join-length-lt :
    (xs ys : List Bytes) (d : Bytes)
    → d ≢ []
    → xs ≢ []
    → ys ≢ []
    → length (join xs d) < length (join (xs ++ ys) d)
join-length-lt xs ys d hd hx hy = rw (join-append xs ys d hx hy) (
    omega (
      arith,
      length-append (join xs d) (d ++ join ys d),
      length-append d (join ys d),
      length-pos d hd,
    ))

parents_from-length :
    (seen ps : List Bytes) (d x : Bytes)
    → d ≢ []
    → contains (parents_from seen ps d) x ≡ true
    → length x < length (join (seen ++ ps) d)
unfolding parents_from
parents_from-length seen [] d x hd h = cc
parents_from-length seen (p ∷ []) d x hd h = cc
parents_from-length seen (p ∷ q ∷ ps) d x hd h =
    subst (λ l. length x < length (join l d)) (append_assoc seen (p ∷ []) (q ∷ ps))
      (elim (Bool-cases (str_eq (join (seen ++ p ∷ []) d) x)) [
        | inl same ↦
            subst (λ y. length y < length (join ((seen ++ p ∷ []) ++ q ∷ ps) d))
              ((str_eq_iff _ _).0 same)
              (join-length-lt (seen ++ p ∷ []) (q ∷ ps) d hd (concat-ne-nil p seen) (λ e. cc))
        | inr other ↦ parents_from-length (seen ++ p ∷ []) (q ∷ ps) d x hd (ground arith)
      ])

pub parents-irreflexive :
    (ps : List Bytes) (d : Bytes) → d ≢ [] → contains (parents ps d) (join ps d) ≡ false
unfolding parents
parents-irreflexive ps d hd = elim (Bool-cases (contains (parents_from [] ps d) (join ps d))) [
  | inl bad ↦ absurd (omega (arith, parents_from-length [] ps d (join ps d) hd bad))
  | inr good ↦ good
]

-- The path of a proper, non-empty part of the front of the parts.
abbrev pub IsParent : List Bytes → List Bytes → Bytes → Bytes → Type 0
IsParent seen ps d x = (i : ℕ) × (0 < i) × (i < length ps) × (x ≡ join (seen ++ take i ps) d)

parents_from-IsParent :
    (seen ps : List Bytes) (d x : Bytes)
    → contains (parents_from seen ps d) x ≡ true
    → IsParent seen ps d x
unfolding parents_from
parents_from-IsParent seen [] d x h = cc
parents_from-IsParent seen (p ∷ []) d x h = cc
parents_from-IsParent seen (p ∷ q ∷ ps) d x h =
    elim (Bool-cases (str_eq (join (seen ++ p ∷ []) d) x)) [
      | inl same ↦ (1, omega arith, omega arith, sym ((str_eq_iff _ _).0 same))
      | inr other ↦
          let (i, positive, below, e) =
            parents_from-IsParent (seen ++ p ∷ []) (q ∷ ps) d x (ground arith) in
          (
            suc i,
            omega arith,
            omega arith,
            e ∙ ap (λ t. join t d) (append_assoc seen (p ∷ []) (take i (q ∷ ps))),
          )
    ]

IsParent-parents_from :
    (i : ℕ) (seen ps : List Bytes) (d : Bytes)
    → suc i < length ps
    → contains (parents_from seen ps d) (join (seen ++ take (suc i) ps) d) ≡ true
unfolding parents_from
IsParent-parents_from i seen [] d h = absurd (omega arith)
IsParent-parents_from i seen (p ∷ []) d h = absurd (omega arith)
IsParent-parents_from zero seen (p ∷ q ∷ ps) d h =
    ground (arith, str_eq_refl (join (seen ++ p ∷ []) d))
IsParent-parents_from (suc i) seen (p ∷ q ∷ ps) d h =
    let same = append_assoc seen (p ∷ []) (take (suc i) (q ∷ ps)) in
    let ih = IsParent-parents_from i (seen ++ p ∷ []) (q ∷ ps) d (omega arith) in
    let ih' : contains (parents_from (seen ++ p ∷ []) (q ∷ ps) d)
          (join (seen ++ p ∷ take (suc i) (q ∷ ps)) d)
        ≡ true =
      subst (λ t. contains (parents_from (seen ++ p ∷ []) (q ∷ ps) d) (join t d) ≡ true) same ih in
    ground (arith, ih')

-- The parents of a path are the paths of the proper parts of its front.
pub contains-parents :
    (ps : List Bytes) (d x : Bytes) → (contains (parents ps d) x ≡ true) ↔ IsParent [] ps d x
unfolding parents
contains-parents ps d x = (parents_from-IsParent [] ps d x, back)
  where
    back : IsParent [] ps d x → contains (parents_from [] ps d) x ≡ true
    back (zero, positive, below, e) = absurd (omega arith)
    back (suc i, positive, below, e) =
        subst (λ y. contains (parents_from [] ps d) y ≡ true) (sym e)
          (IsParent-parents_from i [] ps d below)
