-- ===== src/Write/Guards.antt =====
-- The guards against the deletion of a whole cluster.
use koanf_etcd.Base.{
  Bool, true, false, not, ◌&&◌, ◌||◌, Option, some, is_some, List, [], ◌∷◌, Bytes, codes, is_empty,
  str_eq, arith, ◌≡◌, ◌⊎◌, inl, inr, refl, Bool-cases,
}
use koanf_etcd.Errors.{Site, Error, Is, unsafe_prefix}
use koanf_etcd.Client.{OpOption, with_prefix}
use koanf_etcd.Write.{
  delete_sent, wrap_some, refuse, Cli, WriteOption, apply_opts, Sent, delete_key, delete_all,
}

-- Nothing was sent, and the error is ErrUnsafePrefix.
abbrev pub IsRefused : Sent → Type 0
IsRefused r = (r.0 ≡ []) × ((e : Error) × (r.1 ≡ some e) × Is unsafe_prefix e)

-- One deletion was sent, and what it answered decides between success and an error.
abbrev pub IsDeleted : Cli → Bytes → List OpOption → Sent → Type 0
IsDeleted cli key opts r =
    (r.0 ≡ delete_sent key opts ∷ []) × (is_some r.1 ≡ is_some (cli.delete key opts))

-- The options' answer.
abbrev pub allows : List WriteOption → Bool
allows options = (apply_opts options (record { allow_empty_prefix = false })).allow_empty_prefix

-- The empty key, and a single slash.
abbrev pub is_root : Bytes → Bool
is_root key = is_empty key || str_eq key (codes "/")

wrap_some-is_some : (site : Site) (e : Option Error) → is_some (wrap_some site e) ≡ is_some e
unfolding wrap_some
wrap_some-is_some site e = ground arith

-- Delete refuses the empty key, and sends one deletion of any other key.
pub delete_key_lem :
    (cli : Cli) (key : Bytes)
    → ((is_empty key ≡ true) × IsRefused (delete_key cli key))
      ⊎ ((is_empty key ≡ false) × IsDeleted cli key [] (delete_key cli key))
unfolding delete_key refuse
delete_key_lem cli [] = inl (refl, (refl, (_, refl, refl)))
delete_key_lem cli (c ∷ key) = inr (refl, (refl, wrap_some-is_some _ _))

-- DeletePrefix refuses the empty prefix and a single slash unless an option allows it, and else
-- sends one deletion, of all keys with the prefix.
pub delete_all_lem :
    (cli : Cli) (prefix : Bytes) (options : List WriteOption)
    → ((allows options ≡ false)
        × (is_root prefix ≡ true)
        × IsRefused (delete_all cli prefix options))
      ⊎ (((allows options ≡ true) ⊎ (is_root prefix ≡ false))
          × IsDeleted cli prefix (with_prefix ∷ []) (delete_all cli prefix options))
unfolding delete_all refuse
delete_all_lem cli prefix options = elim (Bool-cases (not (allows options) && is_root prefix)) [
  | inl guarded ↦ inl (ground arith, ground arith, rw guarded (refl, (_, refl, refl)))
  | inr free ↦ inr (ground arith, rw free (refl, wrap_some-is_some _ _))
]
