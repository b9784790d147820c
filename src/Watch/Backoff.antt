-- ===== src/Watch/Backoff.antt =====
-- watch.go, `backoff`, over int64 nanoseconds.
use native.Mathlib.Nat.{one-le-pow}
use koanf_etcd.Base.{
  ℕ, suc, ◌+◌, ◌-◌, ◌*◌, ◌^◌, ◌≤◌, ◌<◌, false, ◌||◌, ◌≡◌, ◌⊎◌, inl, inr, refl, sym, ap, ◌∙◌, arith,
  Bool-cases, ltb, ltb→lt, ◌%◌, if◌then◌else◌,
}
use koanf_etcd.Base.Int.{ℤ, pos, negsuc, pos_part, ◌+ℤ◌, ◌-ℤ◌, le_int, lt_int, wrap64, shl64}
use koanf_etcd.Settings.{Duration}

le-mul : (m t : ℕ) → 1 ≤ t → m ≤ m * t
le-mul m t h = grind arith

sub64 : (a b : ℕ) → a < 2 ^ 63 → b ≤ a → wrap64 (pos a -ℤ pos b) ≡ pos (a - b)
unfolding wrap64
sub64 a b h k = ground arith

add64 : (a b : ℕ) → a + b < 2 ^ 63 → wrap64 (pos a +ℤ pos b) ≡ pos (a + b)
unfolding wrap64
add64 a b h = ground arith

shl64_fits : (m k : ℕ) → m < 2 ^ 63 → m * 2 ^ k < 2 ^ 63 → shl64 (pos m) k ≡ pos (m * 2 ^ k)
unfolding shl64
shl64_fits m k h f =
    let whole : m % 2 ^ 64 ≡ m = omega arith in
    let kept : (m * 2 ^ k) % 2 ^ 64 ≡ m * 2 ^ k = omega arith in rw (whole, kept) (ground arith)

-- `int_n` is math/rand/v2's Int64N.
module _ (int_n : ℤ → ℤ) where
  jitter : Duration → Duration → Duration
  jitter exp min =
      if le_int exp min then min else wrap64 (min +ℤ int_n (wrap64 (wrap64 (exp -ℤ min) +ℤ pos 1)))

  ceiling : Duration → Duration → Duration
  ceiling exp max = if le_int exp (pos 0) || lt_int max exp then max else exp

  unfoldable pub backoff : ℤ → Duration → Duration → Duration
  unfolding jitter ceiling
  backoff attempt min max =
      let n = if lt_int attempt (pos 1) then pos 1 else attempt in
      jitter (ceiling (shl64 min (pos_part n - 1)) max) min

  -- Int64N(n) is documented to lie in [0, n) for positive n.
  abbrev pub IsRandom : Type 0
  IsRandom = (n : ℕ) → 0 < n → (j : ℕ) × (int_n (pos n) ≡ pos j) × (j < n)

  ceiling_lem :
      (exp : Duration) (max : ℕ)
      → 0 < max
      → (p : ℕ) × (ceiling exp (pos max) ≡ pos p) × (0 < p) × (p ≤ max)
  unfolding ceiling
  ceiling_lem (pos e) max h =
      elim (Bool-cases (le_int (pos e) (pos 0) || lt_int (pos max) (pos e))) [
        | inl over ↦ (max, rw over refl, h, omega arith)
        | inr fits ↦ (e, rw fits refl, ground arith, ground arith)
      ]
  ceiling_lem (negsuc e) max h = (max, ground arith, h, omega arith)

  ceiling_fits : (e max : ℕ) → 0 < e → e ≤ max → ceiling (pos e) (pos max) ≡ pos e
  unfolding ceiling
  ceiling_fits e max h k = ground arith

  jitter_lem :
      (exp min : ℕ)
      → IsRandom
      → exp < 2 ^ 63
      → 0 < min
      → (r : ℕ) × (jitter (pos exp) (pos min) ≡ pos r)
        × (min ≤ r)
        × ((r ≤ exp) ⊎ ((exp ≤ min) × (r ≡ min)))
  unfolding jitter
  jitter_lem exp min random fits h = elim (Bool-cases (le_int (pos exp) (pos min))) [
    | inl low ↦ (min, rw low refl, omega arith, inr (ground arith, refl))
    | inr high ↦
        let lt : min < exp = ground arith in
        let (j, drawn, below) = random (exp - min + 1) (omega arith) in
        (
          min + j,
          rw (high, sub64 exp min fits (omega arith), add64 (exp - min) 1 (omega arith), drawn)
              (add64 min j (omega arith)),
          omega arith,
          inl (omega arith),
        )
  ]

  backoff-eq :
      (attempt : ℕ) (min max : Duration)
      → backoff (pos (suc attempt)) min max ≡ jitter (ceiling (shl64 min attempt) max) min
  unfolding backoff
  backoff-eq attempt min max =
      let one : lt_int (pos (suc attempt)) (pos 1) ≡ false = ground arith in
      let count : suc attempt - 1 ≡ attempt = omega arith in rw (one, count)

  -- With 0 < min ≤ max, every attempt waits at least min and at most max, also where the shift
  -- overflows; and as long as min * 2 ^ (attempt - 1) is not above max, at most that.
  pub backoff_bounds :
      (attempt min max : ℕ)
      → IsRandom
      → 0 < min
      → min ≤ max
      → max < 2 ^ 63
      → (r : ℕ) × (backoff (pos (suc attempt)) (pos min) (pos max) ≡ pos r)
        × (min ≤ r)
        × (r ≤ max)
        × ((max < min * 2 ^ attempt) ⊎ (r ≤ min * 2 ^ attempt))
  backoff_bounds attempt min max random hmin hle hmax =
      let (p, capped, positive, below) = ceiling_lem (shl64 (pos min) attempt) max (omega arith) in
      let (r, drawn, least, most) = jitter_lem p min random (omega arith) hmin in
      let one : 1 ≤ 2 ^ attempt = one-le-pow attempt 2 (omega arith) in
      let larger : min ≤ min * 2 ^ attempt = le-mul min (2 ^ attempt) one in
      (
        r,
        backoff-eq attempt (pos min) (pos max) ∙ (ap (λ x. jitter x (pos min)) capped ∙ drawn),
        least,
        ground arith,
        elim (Bool-cases (ltb max (min * 2 ^ attempt))) [
          | inl over ↦ inl (ltb→lt max (min * 2 ^ attempt) over)
          | inr fits ↦
              let small : min * 2 ^ attempt ≤ max = ground arith in
              let exact : pos p ≡ pos (min * 2 ^ attempt) =
                sym capped
                ∙ (ap (λ x. ceiling x (pos max))
                      (shl64_fits min attempt (omega arith) (omega arith))
                    ∙ ceiling_fits (min * 2 ^ attempt) max (omega arith) small) in
              let same : p ≡ min * 2 ^ attempt = ap pos_part exact in inr (omega arith)
        ],
      )
