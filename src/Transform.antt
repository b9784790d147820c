-- ===== src/Transform.antt =====
-- transform.go: the default transforms of keys and values.
pub mod Laws
mod Tests
use koanf_etcd.Base.{
  ℕ, Bool, ◌&&◌, not, ◌||◌, false, true, List, [], ◌∷◌, Bytes, codes, is_empty, str_eq, ◌≡◌, refl,
  ◌==◌, if◌then◌else◌,
}
use koanf_etcd.Errors.{Result, ok}
use koanf_etcd.Settings.{Settings}
use koanf_etcd.Strings.{trim_prefix, replace_byte, trim_space}

abbrev pub slash : ℕ
slash = b'/'

abbrev pub slash_delim : Bytes → Bool
slash_delim delim = str_eq delim (slash ∷ [])

module _ {V : Type 0} where
  unfoldable pub make_default_key_transform : Settings V → Bytes → Bytes
  make_default_key_transform s k =
      let trim = s.trim_prefix && not (is_empty s.prefix) in
      let trimmed = if trim then trim_prefix k s.prefix else k in
      if slash_delim s.delim then trimmed else replace_byte trimmed slash s.delim

  -- `string_value` makes a Go string an `any`.
  unfoldable pub default_value_transform : (Bytes → V) → Bytes → Bytes → Result V
  default_value_transform string_value key raw = ok (string_value (trim_space raw))
