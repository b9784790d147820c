-- ===== src/Strings/Order.antt =====
-- The byte order of Go's strings.
use koanf_etcd.Base.{true, false, not, ◌&&◌, [], ◌∷◌, ◌++◌, Bytes, str_eq, str_lt, ◌≡◌, refl, arith}

pub str_lt_irrefl : (s : Bytes) → str_lt s s ≡ false
str_lt_irrefl [] = refl
str_lt_irrefl (c ∷ s) = ground (arith, str_lt_irrefl s)

pub str_lt_trans : (s t u : Bytes) → str_lt s t ≡ true → str_lt t u ≡ true → str_lt s u ≡ true
str_lt_trans s t [] h k = cc
str_lt_trans s [] (e ∷ u) h k = cc
str_lt_trans [] (d ∷ t) (e ∷ u) h k = refl
str_lt_trans (c ∷ s) (d ∷ t) (e ∷ u) h k = ground (arith, str_lt_trans s t u)

-- Nothing lies between a string and the same with a zero byte behind it.
pub str_lt-nul : (s t : Bytes) → str_lt s (t ++ 0 ∷ []) ≡ not (str_lt t s)
str_lt-nul [] [] = refl
str_lt-nul [] (d ∷ t) = refl
str_lt-nul (c ∷ s) [] = ground arith
str_lt-nul (c ∷ s) (d ∷ t) = ground (arith, str_lt-nul s t)

pub str_eq-str_lt : (s t : Bytes) → str_eq s t ≡ (not (str_lt t s) && not (str_lt s t))
str_eq-str_lt [] [] = refl
str_eq-str_lt [] (d ∷ t) = refl
str_eq-str_lt (c ∷ s) [] = refl
str_eq-str_lt (c ∷ s) (d ∷ t) = ground (arith, str_eq-str_lt s t)
