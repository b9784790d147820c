-- ===== src/Transform/Laws.antt =====
-- What the default key transform makes of a key.
use koanf_etcd.Base.{
  Bool, ◌&&◌, not, false, [], ◌∷◌, ◌++◌, Bytes, is_empty, has_prefix-append, All, All-append, drop,
  length, ◌≡◌, ◌≢◌, refl, str_eq_iff, subst, ap, ◌==◌, Bool-cases, inl, inr, arith, if◌then◌else◌,
}
use koanf_etcd.Settings.{Settings}
use koanf_etcd.Strings.{trim_prefix, replace_byte}
use koanf_etcd.Transform.{slash, slash_delim, make_default_key_transform}

abbrev pub NoSlash : Bytes → Type 0
NoSlash = All (λ c. c ≢ slash)

replace_byte-NoSlash : (s d : Bytes) → NoSlash d → NoSlash (replace_byte s slash d)
unfolding replace_byte
replace_byte-NoSlash [] d h = tt
replace_byte-NoSlash (c ∷ s) d h = elim (Bool-cases (c == slash)) [
  | inl hit ↦ rw hit (All-append (λ b. b ≢ slash) d _ h (replace_byte-NoSlash s d h))
  | inr miss ↦ rw miss ((ground arith, replace_byte-NoSlash s d h))
]

drop-append : (p s : Bytes) → drop (length p) (p ++ s) ≡ s
drop-append [] s = refl
drop-append (c ∷ p) s = drop-append p s

trim_prefix-append : (p s : Bytes) → trim_prefix (p ++ s) p ≡ s
unfolding trim_prefix
trim_prefix-append p s = rw (has_prefix-append p s, drop-append p s)

trim-prefix :
    (b : Bool) (p k : Bytes)
    → (if b && not (is_empty p) then trim_prefix (p ++ k) p else p ++ k) ≡ (if b then k else p ++ k)
trim-prefix b [] k = ground arith
trim-prefix b (c ∷ p) k = ground (arith, trim_prefix-append (c ∷ p) k)

slash-not-NoSlash : (d : Bytes) → NoSlash d → slash_delim d ≡ false
slash-not-NoSlash d h = elim (Bool-cases (slash_delim d)) [
  | inl same ↦ absurd ((subst NoSlash ((str_eq_iff d (slash ∷ [])).0 same) h).0 refl)
  | inr other ↦ other
]

-- With a delimiter that holds no slash, the path of every key holds none; and the path of a key
-- under the prefix is the key, without the prefix if trimming is on, each slash replaced by the
-- delimiter.
pub make_default_key_transform_lem :
    {V : Type 0} (s : Settings V) (k : Bytes)
    → NoSlash s.delim
    → NoSlash (make_default_key_transform s k)
      × (make_default_key_transform s (s.prefix ++ k)
          ≡ replace_byte (if s.trim_prefix then k else s.prefix ++ k) slash s.delim)
unfolding make_default_key_transform
make_default_key_transform_lem s k h = rw (slash-not-NoSlash s.delim h) (
  replace_byte-NoSlash _ s.delim h,
  ap (λ t. replace_byte t slash s.delim) (trim-prefix s.trim_prefix s.prefix k),
)
