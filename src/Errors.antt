-- ===== src/Errors.antt =====
-- errors.go, and the two classifiers of watch.go. An error is a sentinel of the package, an error
-- that comes from outside, a message of `fmt.Errorf` round either, or a plain message.
mod Tests
use koanf_etcd.Base.{
  ◌⊎◌, ℕ, Bool, true, false, ◌||◌, Option, none, some, Bytes, ◌≡◌, refl, if◌then◌else◌,
}

pub data Sentinel : Type 0 where
  use_parser empty_prefix key_not_found watch_active not_blob : Sentinel
  option_conflict no_mode closed path_collision unsafe_prefix : Sentinel

-- The gRPC codes that the source tells apart.
pub data Code : Type 0 where
  permission_denied unauthenticated : Code
  other_code : ℕ → Code

-- An error of etcd's client, of a context or of a callback: the answers that `errors.Is` gives
-- for the sentinels of rpctypes, the answer of `status.FromError`, and which error it is.
pub record Foreign : Type 0 where
  pub is_compacted : Bool
  pub is_permission_denied : Bool
  pub is_user_not_found : Bool
  pub is_auth_failed : Bool
  pub is_invalid_auth_token : Bool
  pub status : Option Code
  pub id : ℕ

-- The messages that `fmt.Errorf` puts in front of a wrapped error, with their %q argument.
pub data Site : Type 0 where
  apply_option build_client auth_provider srv_lookup load_keypair read_ca : Site
  key_prefix_exclusive blob_requires_key blob_with_unflatten client_mixed : Site
  auth_exclusive tls_exclusive ctx_cancelled read_nested : Site
  pending_resync fatal_watch resync_failed : Site
  read_blob read_single read_prefix value_transform not_found : Bytes → Site
  shadows_subtree : Bytes → Site
  parent_is_leaf : (path parent : Bytes) → Site
  put delete delete_prefix unsafe_key : Bytes → Site
  commit : Site

-- The messages that wrap nothing.
pub data Message : Type 0 where
  more_with_empty_page : Bytes → Message
  no_valid_certs txn_failed : Message
  panic_in_loop panic_in_callback : ℕ → Message

-- `nil_call` is a call of a nil function, which panics in Go; `out_of_fuel` belongs to the model.
pub data Error : Type 0 where
  nil_call out_of_fuel : Error
  sentinel : Sentinel → Error
  foreign : Foreign → Error
  plain : Message → Error
  wrap : Site → Error → Error

-- Go's `(A, error)`: a value, or an error that is not nil.
pub data Result {ℓ} (A : Type ℓ) : Type ℓ where
  err : Error → Result A
  ok : A → Result A

-- `if err != nil { return ..., fmt.Errorf("site: %w", err) }`
abbrev pub or_wrap {ℓ} : {A : Type ℓ} → Site → Result A → Result A
or_wrap s (ok a) = ok a
or_wrap s (err e) = err (wrap s e)

-- `if err != nil { return err }`
infixl 5 ◌>>=◌
abbrev pub ◌>>=◌ {ℓ κ} : {A : Type ℓ} {B : Type κ} → Result A → (A → Result B) → Result B
r >>= then_do = elim r [ err e ↦ err e | ok a ↦ then_do a ]

-- A chain that ends well went well at each step.
pub bind-ok {ℓ κ} :
    {A : Type ℓ} {B : Type κ} (r : Result A) (next : A → Result B) {b : B}
    → (r >>= next) ≡ ok b
    → (a : A) × (r ≡ ok a) × (next a ≡ ok b)
bind-ok (err e) next h = cc
bind-ok (ok a) next h = (a, refl, h)

pub or_wrap-ok {ℓ} :
    {A : Type ℓ} (site : Site) (r : Result A) {a : A} → or_wrap site r ≡ ok a → r ≡ ok a
or_wrap-ok site (err e) h = cc
or_wrap-ok site (ok b) h = h

pub data WatchErrorClass : Type 0 where
  transient compaction auth fatal : WatchErrorClass

-- `errors.Is(err, s)` for a sentinel of the package.
abbrev pub Is : Sentinel → Error → Type 0
Is s (sentinel t) = s ≡ t
Is s (foreign f) = ⊥
Is s (plain m) = ⊥
Is s nil_call = ⊥
Is s out_of_fuel = ⊥
Is s (wrap x e) = Is s e

-- `errors.Is(err, rpctypes.ErrCompacted)`
unfoldable pub is_compacted : Error → Bool
is_compacted (sentinel s) = false
is_compacted (foreign f) = f.is_compacted
is_compacted (plain m) = false
is_compacted nil_call = false
is_compacted out_of_fuel = false
is_compacted (wrap s e) = is_compacted e

-- The four `errors.Is` tests of `isFatalRPCError`.
is_auth_sentinel : Foreign → Bool
is_auth_sentinel f =
    f.is_permission_denied || f.is_user_not_found || f.is_auth_failed || f.is_invalid_auth_token

-- `case codes.PermissionDenied, codes.Unauthenticated`
is_denied : Option Code → Bool
is_denied none = false
is_denied (some permission_denied) = true
is_denied (some unauthenticated) = true
is_denied (some (other_code n)) = false

unfoldable pub is_fatal_error : Error → Bool
unfolding is_auth_sentinel is_denied
is_fatal_error (sentinel s) = false
is_fatal_error (foreign f) = if is_auth_sentinel f then true else is_denied f.status
is_fatal_error (plain m) = false
is_fatal_error nil_call = false
is_fatal_error out_of_fuel = false
is_fatal_error (wrap s e) = is_fatal_error e

unfoldable pub is_fatal_rpc_error : Option Error → Bool
unfolding is_fatal_error
is_fatal_rpc_error none = false
is_fatal_rpc_error (some e) = is_fatal_error e

unfoldable pub classify_watch_error : Option Error → WatchErrorClass
unfolding is_compacted is_fatal_error is_fatal_rpc_error
classify_watch_error none = transient
classify_watch_error (some e) =
    if is_compacted e then compaction else if is_fatal_rpc_error (some e) then auth else transient

-- The error from outside that a chain of messages ends in, if it ends in one.
abbrev pub cause : Error → Option Foreign
cause (foreign f) = some f
cause (wrap s e) = cause e
cause (sentinel s) = none
cause (plain m) = none
cause nil_call = none
cause out_of_fuel = none

-- etcd's answer that the caller lacks a right or valid credentials.
abbrev pub IsDenial : Foreign → Type 0
IsDenial f =
    (f.is_permission_denied ≡ true)
    ⊎ ((f.is_user_not_found ≡ true)
        ⊎ ((f.is_auth_failed ≡ true)
            ⊎ ((f.is_invalid_auth_token ≡ true)
                ⊎ ((f.status ≡ some permission_denied) ⊎ (f.status ≡ some unauthenticated)))))

-- What the class of an error says of its cause.
abbrev pub Meaning : WatchErrorClass → Option Foreign → Type 0
Meaning compaction none = ⊥
Meaning compaction (some f) = f.is_compacted ≡ true
Meaning auth none = ⊥
Meaning auth (some f) = (f.is_compacted ≡ false) × IsDenial f
Meaning transient none = Unit
Meaning transient (some f) = (f.is_compacted ≡ false) × ¬ IsDenial f
Meaning fatal c = ⊥
