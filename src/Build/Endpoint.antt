-- ===== src/Build/Endpoint.antt =====
-- The endpoint that transform.go formats for an SRV record, `host:port`, read back.
use koanf_etcd.Base.{
  ℕ, zero, suc, ◌+◌, ◌-◌, ◌*◌, ◌/◌, ◌%◌, ◌<◌, Option, none, some, [], ◌∷◌, ◌++◌, Bytes, ◌==◌, ltb,
  All, All-append, ◌≡◌, ◌≢◌, refl, ap, ◌∙◌, arith, if◌then◌else◌, Bool-cases, inl, inr,
}
use koanf_etcd.Build.{Srv, colon, digits, decimal, endpoint, trim_dot}

-- The host and the port of an endpoint: what stands before its last colon, and after it.
abbrev pub last_colon : Bytes → Option (Bytes × Bytes)
last_colon [] = none
last_colon (c ∷ s) = elim (last_colon s) [
  | some (h, p) ↦ some (c ∷ h, p)
  | none ↦ if c == colon then some ([], s) else none
]

-- The number that digits stand for, after `acc`.
abbrev pub number : ℕ → Bytes → ℕ
number acc [] = acc
number acc (c ∷ s) = number (acc * 10 + (c - b'0')) s

abbrev NoColon : Bytes → Type 0
NoColon = All (λ c. c ≢ colon)

digits-NoColon : (fuel n : ℕ) → NoColon (digits fuel n)
unfolding digits
digits-NoColon zero n = tt
digits-NoColon (suc fuel) n = elim (Bool-cases (ltb n 10)) [
  | inl one ↦ rw one ((ground arith, tt))
  | inr more ↦ rw more (
      All-append (λ c. c ≢ colon) _ _ (digits-NoColon fuel (n / 10))
        (((λ e. absurd (omega arith)), tt)))
]

last_colon-NoColon : (s : Bytes) → NoColon s → last_colon s ≡ none
last_colon-NoColon [] h = refl
last_colon-NoColon (c ∷ s) (ne, h) = ground (arith, last_colon-NoColon s h)

last_colon-append : (h d : Bytes) → NoColon d → last_colon (h ++ colon ∷ d) ≡ some (h, d)
last_colon-append [] d k = ground (arith, last_colon-NoColon d k)
last_colon-append (c ∷ h) d k = ground (arith, last_colon-append h d k)

number-append : (acc : ℕ) (s t : Bytes) → number acc (s ++ t) ≡ number (number acc s) t
number-append acc [] t = refl
number-append acc (c ∷ s) t = number-append (acc * 10 + (c - b'0')) s t

number-digits : (fuel n : ℕ) → n < fuel → number 0 (digits fuel n) ≡ n
unfolding digits
number-digits zero n h = absurd (omega arith)
number-digits (suc fuel) n h = elim (Bool-cases (ltb n 10)) [
  | inl one ↦ rw one (omega arith)
  | inr more ↦ rw more (
      number-append 0 (digits fuel (n / 10)) _
      ∙ (ap (λ k. k * 10 + ((b'0' + n % 10) - b'0')) (number-digits fuel (n / 10) (ground arith))
          ∙ omega arith))
]

-- The endpoint of an SRV record holds the record: before its last colon stands the target without
-- its trailing dot, also where that holds colons itself, and behind it the port in decimal digits.
pub endpoint_lem :
    (a : Srv)
    → (p : Bytes) × (last_colon (endpoint a) ≡ some (trim_dot a.target, p)) × (number 0 p ≡ a.port)
unfolding endpoint decimal
endpoint_lem a = (
  decimal a.port,
  last_colon-append (trim_dot a.target) (decimal a.port) (digits-NoColon (suc a.port) a.port),
  number-digits (suc a.port) a.port (omega arith),
)
