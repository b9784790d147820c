-- ===== src/Strings.antt =====
-- The functions of Go's packages strings and bytes that the program calls, on byte lists.
pub mod Split
pub mod Order
use koanf_etcd.Base.{
  ℕ, zero, suc, ◌-◌, map, Bool, true, false, ◌||◌, List, [], ◌∷◌, ◌++◌, reverse, Bytes, has_prefix,
  length, drop, ◌==◌, if◌then◌else◌,
}

-- The loop of strings.Split(s, sep) for a separator that is not empty. `cur` is the part so far;
-- `skip` counts the bytes of the last separator that are still to be passed.
split_from : Bytes → ℕ → Bytes → Bytes → List Bytes
split_from sep skip cur [] = cur ∷ []
split_from sep (suc skip) cur (c ∷ s) = split_from sep skip cur s
split_from sep zero cur (c ∷ s) =
    let closed = cur ∷ split_from sep (length sep - 1) [] s in
    let longer = split_from sep 0 (cur ++ c ∷ []) s in
    if has_prefix sep (c ∷ s) then closed else longer

-- strings.Split(s, sep), sep not empty.
unfoldable pub split : Bytes → Bytes → List Bytes
unfolding split_from
split s sep = split_from sep 0 [] s

-- strings.Join(parts, sep)
unfoldable pub join : List Bytes → Bytes → Bytes
join [] sep = []
join (p ∷ []) sep = p
join (p ∷ q ∷ ps) sep = p ++ (sep ++ join (q ∷ ps) sep)

-- strings.TrimPrefix(s, prefix)
unfoldable pub trim_prefix : Bytes → Bytes → Bytes
trim_prefix s prefix = if has_prefix prefix s then drop (length prefix) s else s

-- strings.ReplaceAll(s, old, new), where `old` is one byte.
unfoldable pub replace_byte : Bytes → ℕ → Bytes → Bytes
replace_byte [] old new = []
replace_byte (c ∷ s) old new = (if c == old then new else c ∷ []) ++ replace_byte s old new

-- The white space of unicode.IsSpace, in UTF-8. Go decodes a code point at either end of a text;
-- it meets one of these exactly when the text begins, or ends, with its bytes.
abbrev spaces : List Bytes
spaces =
    (9 ∷ [])
    ∷ (10 ∷ [])
    ∷ (11 ∷ [])
    ∷ (12 ∷ [])
    ∷ (13 ∷ [])
    ∷ (32 ∷ [])
    ∷ (0xc2 ∷ 0x85 ∷ [])
    ∷ (0xc2 ∷ 0xa0 ∷ [])
    ∷ (0xe1 ∷ 0x9a ∷ 0x80 ∷ [])
    ∷ (0xe2 ∷ 0x80 ∷ 0x80 ∷ [])
    ∷ (0xe2 ∷ 0x80 ∷ 0x81 ∷ [])
    ∷ (0xe2 ∷ 0x80 ∷ 0x82 ∷ [])
    ∷ (0xe2 ∷ 0x80 ∷ 0x83 ∷ [])
    ∷ (0xe2 ∷ 0x80 ∷ 0x84 ∷ [])
    ∷ (0xe2 ∷ 0x80 ∷ 0x85 ∷ [])
    ∷ (0xe2 ∷ 0x80 ∷ 0x86 ∷ [])
    ∷ (0xe2 ∷ 0x80 ∷ 0x87 ∷ [])
    ∷ (0xe2 ∷ 0x80 ∷ 0x88 ∷ [])
    ∷ (0xe2 ∷ 0x80 ∷ 0x89 ∷ [])
    ∷ (0xe2 ∷ 0x80 ∷ 0x8a ∷ [])
    ∷ (0xe2 ∷ 0x80 ∷ 0xa8 ∷ [])
    ∷ (0xe2 ∷ 0x80 ∷ 0xa9 ∷ [])
    ∷ (0xe2 ∷ 0x80 ∷ 0xaf ∷ [])
    ∷ (0xe2 ∷ 0x81 ∷ 0x9f ∷ [])
    ∷ (0xe3 ∷ 0x80 ∷ 0x80 ∷ [])
    ∷ []

-- How many bytes the space in front of a text takes; 0 if there is none.
leading : List Bytes → Bytes → ℕ
leading [] s = 0
leading (w ∷ ws) s = if has_prefix w s then length w else leading ws s

trim_left : List Bytes → ℕ → Bytes → Bytes
trim_left ws skip [] = []
trim_left ws (suc skip) (c ∷ s) = trim_left ws skip s
trim_left ws zero (c ∷ s) =
    let shorter = trim_left ws (leading ws (c ∷ s) - 1) s in
    if leading ws (c ∷ s) == 0 then c ∷ s else shorter

-- bytes.TrimSpace(s)
unfoldable pub trim_space : Bytes → Bytes
unfolding leading trim_left
trim_space s = reverse (trim_left (map reverse spaces) 0 (reverse (trim_left spaces 0 s)))
