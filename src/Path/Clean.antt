-- ===== src/Path/Clean.antt =====
-- What `splitCleanPath` takes off a key.
use mathlib.Core.List.{reverse-cons, reverse-reverse, concat-ne-nil}
use koanf_etcd.Base.{
  All, ℕ, zero, suc, Bool, true, not, List, [], ◌∷◌, ◌++◌, append_assoc, append-nil, reverse, Bytes,
  is_empty, ◌≡◌, ◌≢◌, refl, sym, ap, ◌∙◌, arith,
}
use koanf_etcd.Strings.{split, join}
use koanf_etcd.Strings.Split.{join-cons, join-split, Lacks, All-split}
use koanf_etcd.Path.{drop_empty, drop_empty_end, split_clean_path}

-- n delimiters in a row.
abbrev pub repeat : ℕ → Bytes → Bytes
repeat zero d = []
repeat (suc n) d = d ++ repeat n d

-- No part, or a first part that is not empty.
abbrev pub starts_full : List Bytes → Bool
starts_full [] = true
starts_full (p ∷ ps) = not (is_empty p)

repeat-suc : (n : ℕ) (d : Bytes) → repeat n d ++ d ≡ d ++ repeat n d
repeat-suc zero d = sym (append-nil d)
repeat-suc (suc n) d = append_assoc d (repeat n d) d ∙ ap (λ t. d ++ t) (repeat-suc n d)

join-drop_empty :
    (ps : List Bytes) (d : Bytes) → (n : ℕ) × (join ps d ≡ repeat n d ++ join (drop_empty ps) d)
unfolding drop_empty
join-drop_empty [] d = (0, refl)
join-drop_empty ([] ∷ []) d = (0, unfold join in refl)
join-drop_empty ([] ∷ q ∷ ps) d =
    let (n, e) = join-drop_empty (q ∷ ps) d in
    (
      suc n,
      join-cons [] (q ∷ ps) d (λ h. cc)
          ∙ (ap (λ t. d ++ t) e ∙ sym (append_assoc d (repeat n d) _)),
    )
join-drop_empty ((c ∷ p) ∷ ps) d = (0, refl)

join-concat_empty :
    (ps : List Bytes) (d : Bytes) → ps ≢ [] → join (ps ++ [] ∷ []) d ≡ join ps d ++ d
join-concat_empty [] d h = absurd (h refl)
join-concat_empty (p ∷ []) d h = unfold join in ap (λ t. p ++ t) (append-nil d)
join-concat_empty (p ∷ q ∷ ps) d h =
    rw (join-cons p (q ∷ ps) d (λ e. cc), join-cons p ((q ∷ ps) ++ [] ∷ []) d (λ e. cc))
      (rw (join-concat_empty (q ∷ ps) d (λ e. cc)) (simp append_assoc))

reverse-ne-nil : (q : Bytes) (rs : List Bytes) → reverse (q ∷ rs) ≢ []
reverse-ne-nil q rs = λ e. concat-ne-nil q (reverse rs) (sym (reverse-cons q rs) ∙ e)

join-reverse-drop_empty :
    (rs : List Bytes) (d : Bytes)
    → (n : ℕ) × (join (reverse rs) d ≡ join (reverse (drop_empty rs)) d ++ repeat n d)
unfolding drop_empty
join-reverse-drop_empty [] d = (0, unfold join in refl)
join-reverse-drop_empty ([] ∷ []) d = (0, unfold join in refl)
join-reverse-drop_empty ([] ∷ q ∷ rs) d =
    let (n, e) = join-reverse-drop_empty (q ∷ rs) d in
    (
      suc n,
      ap (λ t. join t d) (reverse-cons [] (q ∷ rs))
          ∙ (join-concat_empty (reverse (q ∷ rs)) d (reverse-ne-nil q rs)
              ∙ (ap (λ t. t ++ d) e
                  ∙ (append_assoc _ (repeat n d) d
                      ∙ ap (λ t. join (reverse (drop_empty (q ∷ rs))) d ++ t) (repeat-suc n d)))),
    )
join-reverse-drop_empty ((c ∷ p) ∷ rs) d = (0, sym (append-nil _))

starts_full-drop_empty : (ps : List Bytes) → starts_full (drop_empty ps) ≡ true
unfolding drop_empty
starts_full-drop_empty [] = refl
starts_full-drop_empty (p ∷ ps) = ground (arith, starts_full-drop_empty ps)

starts_full-concat :
    (ps : List Bytes) (q : Bytes) → starts_full (ps ++ q ∷ []) ≡ true → starts_full ps ≡ true
starts_full-concat [] q h = refl
starts_full-concat (p ∷ ps) q h = h

starts_full-reverse-drop_empty :
    (rs : List Bytes)
    → starts_full (reverse rs) ≡ true
    → starts_full (reverse (drop_empty rs)) ≡ true
unfolding drop_empty
starts_full-reverse-drop_empty [] h = refl
starts_full-reverse-drop_empty ([] ∷ rs) h =
    starts_full-reverse-drop_empty rs (starts_full-concat (reverse rs) [] (rw reverse-cons at h))
starts_full-reverse-drop_empty ((c ∷ p) ∷ rs) h = h

-- The two ends of `drop_empty_end`, for any list of parts.
drop_empty_end_lem :
    (ps : List Bytes) (d : Bytes)
    → starts_full ps ≡ true
    → (starts_full (drop_empty_end ps) ≡ true)
      × (starts_full (reverse (drop_empty_end ps)) ≡ true)
      × ((n : ℕ) × (join ps d ≡ join (drop_empty_end ps) d ++ repeat n d))
unfolding drop_empty_end
drop_empty_end_lem ps d h =
    let (n, e) = join-reverse-drop_empty (reverse ps) d in
    (
      starts_full-reverse-drop_empty (reverse ps) (rw reverse-reverse h),
      rw reverse-reverse (starts_full-drop_empty (reverse ps)),
      (n, ap (λ t. join t d) (sym (reverse-reverse ps)) ∙ e),
    )

split_clean_path-eq : (s d : Bytes) → split_clean_path s d ≡ drop_empty_end (drop_empty (split s d))
unfolding split_clean_path
split_clean_path-eq s d = refl

All-drop_empty {κ} : (P : Bytes → Type κ) (ps : List Bytes) → All P ps → All P (drop_empty ps)
unfolding drop_empty
All-drop_empty P [] h = tt
All-drop_empty P ([] ∷ ps) (k, h) = All-drop_empty P ps h
All-drop_empty P ((c ∷ p) ∷ ps) h = h

All-concat {κ} :
    (P : Bytes → Type κ) (ps : List Bytes) (q : Bytes) → All P ps → P q → All P (ps ++ q ∷ [])
All-concat P [] q h k = (k, tt)
All-concat P (p ∷ ps) q (g, h) k = (g, All-concat P ps q h k)

All-reverse {κ} : (P : Bytes → Type κ) (ps : List Bytes) → All P ps → All P (reverse ps)
All-reverse P [] h = tt
All-reverse P (p ∷ ps) (k, h) = rw reverse-cons (All-concat P (reverse ps) p (All-reverse P ps h) k)

All-split_clean_path : (s d : Bytes) → All (Lacks d) (split_clean_path s d)
unfolding split_clean_path drop_empty_end
All-split_clean_path s d =
    let ps = drop_empty (split s d) in
    All-reverse (Lacks d) (drop_empty (reverse ps)) (
      All-drop_empty (Lacks d) (reverse ps)
        (All-reverse (Lacks d) ps (All-drop_empty (Lacks d) (split s d) (All-split s d))))

-- The key is the path of the parts with a number of whole delimiters in front and a number behind:
-- nothing else is taken off. No part holds the delimiter, and the first and the last are not empty:
-- all of them are taken off.
pub split_clean_path_lem :
    (s delim : Bytes)
    → delim ≢ []
    → All (Lacks delim) (split_clean_path s delim)
      × (starts_full (split_clean_path s delim) ≡ true)
      × (starts_full (reverse (split_clean_path s delim)) ≡ true)
      × ((a : ℕ) × (b : ℕ) × (s
            ≡ repeat a delim ++ (join (split_clean_path s delim) delim ++ repeat b delim)))
split_clean_path_lem s delim h =
    let ps = drop_empty (split s delim) in
    let (a, front) = join-drop_empty (split s delim) delim in
    let (first, last, (b, back)) =
      drop_empty_end_lem ps delim (starts_full-drop_empty (split s delim)) in
    (
      All-split_clean_path s delim,
      rw split_clean_path-eq first,
      rw split_clean_path-eq last,
      (
        a,
        b,
        rw split_clean_path-eq
            (sym (join-split s delim h) ∙ (front ∙ ap (λ t. repeat a delim ++ t) back)),
      ),
    )
