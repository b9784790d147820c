-- ===== src/Read/Down.antt =====
-- A read fails while etcd is down.
use koanf_etcd.Base.{
  ℕ, zero, suc, ◌<◌, Bool, true, false, not, List, [], Bytes, is_empty, ◌≡◌, ◌∙◌, refl, arith,
  if◌then◌else◌,
}
use koanf_etcd.Errors.{
  Error, Result, ok, err, Site, sentinel, closed, use_parser, not_blob, read_blob,
}
use koanf_etcd.Client.{OpOption}
use koanf_etcd.Path.{Map}
use koanf_etcd.Settings.{Settings}
use koanf_etcd.Provider.{State, Env}
use koanf_etcd.Read.{
  M, pass, fail, wrapped, get, pages, read_ctx, read_bytes_ctx, read_prefix, read_single, read_opts,
  page_key, page_opts, counted,
}

abbrev pub IsErr {ℓ} : {A : Type ℓ} → Result A → Type 0
IsErr (ok a) = ⊥
IsErr (err e) = Unit

-- No Get is answered.
abbrev pub IsDown : {V : Type 0} → Env V → Type 0
IsDown env =
    (n : ℕ) (key : Bytes) (opts : List OpOption) → (e : Error) × (env.get n key opts ≡ err e)

pub pass-IsErr {ℓ κ} :
    {A : Type ℓ} {B : Type κ} (x : State × Result A) (f : A → M B) → IsErr x.1 → IsErr (pass x f).1
pass-IsErr (st, err e) f h = tt
pass-IsErr (st, ok a) f h = absurd h

pub if-IsErr {ℓ} :
    {A : Type ℓ} (t : Bool) (x y : State × Result A)
    → IsErr x.1
    → IsErr y.1
    → IsErr (if t then x else y).1
if-IsErr true x y h k = h
if-IsErr false x y h k = k

module _ {V : Type 0} (env : Env V) (s : Settings V) (down : IsDown env) where
  get-IsErr :
      (site : Site) (key : Bytes) (opts : List OpOption) (st : State)
      → IsErr (wrapped site (get env key opts) st).1
  unfolding get
  get-IsErr site key opts st = let (e, same) = down st.rpcs key opts in rw same tt

  pages-IsErr :
      (fuel : ℕ) (first : Bool) (last : Bytes) (flat : Map V) (st : State)
      → IsErr (pages env s fuel first last flat st).1
  unfolding pages
  pages-IsErr zero first last flat st = tt
  pages-IsErr (suc fuel) first last flat st =
      pass-IsErr
        (wrapped (Site.read_prefix s.prefix)
          (get env (page_key env s first last) (page_opts env s first)) st)
        _ (get-IsErr _ _ _ st)

  read_prefix-IsErr : (st : State) → IsErr (read_prefix env s st).1
  unfolding read_prefix
  read_prefix-IsErr st =
      pass-IsErr (pages env s env.fuel true [] [] st) _ (pages-IsErr env.fuel true [] [] st)

  read_single-IsErr : (st : State) → IsErr (read_single env s st).1
  unfolding read_single
  read_single-IsErr st =
      pass-IsErr (wrapped (Site.read_single s.key) (get env s.key (read_opts env s false)) st) _
        (get-IsErr _ _ _ st)

  either-IsErr :
      (t : Bool) (st : State) → IsErr ((if t then read_prefix env s else read_single env s) st).1
  either-IsErr true st = read_prefix-IsErr st
  either-IsErr false st = read_single-IsErr st

  pub read_ctx-IsErr : (st : State) → IsErr (read_ctx env s st).1
  unfolding read_ctx
  read_ctx-IsErr st = if-IsErr st.closed (fail (sentinel closed) st) _ tt (
      if-IsErr s.blob (fail (sentinel use_parser) st) _ tt (
        pass-IsErr ((if is_empty s.key then read_prefix env s else read_single env s) st)
          (counted env s) (either-IsErr (is_empty s.key) st)))

  pub read_bytes_ctx-IsErr : (st : State) → IsErr (read_bytes_ctx env s st).1
  unfolding read_bytes_ctx
  read_bytes_ctx-IsErr st = if-IsErr st.closed (fail (sentinel closed) st) _ tt (
      if-IsErr (not s.blob) (fail (sentinel not_blob) st) _ tt (
        pass-IsErr (wrapped (read_blob s.key) (get env s.key (read_opts env s false)) st) _
          (get-IsErr _ _ _ st)))

  pass-rpcs {ℓ κ} :
      {A : Type ℓ} {B : Type κ} (x : State × Result A) (f : A → M B)
      → IsErr x.1
      → (pass x f).0.rpcs ≡ x.0.rpcs
  pass-rpcs (st, err e) f h = refl
  pass-rpcs (st, ok a) f h = absurd h

  pages-rpcs :
      (fuel : ℕ) (first : Bool) (last : Bytes) (flat : Map V) (st : State)
      → 0 < fuel
      → (pages env s fuel first last flat st).0.rpcs ≡ suc st.rpcs
  unfolding pages get
  pages-rpcs zero first last flat st h = absurd (omega arith)
  pages-rpcs (suc fuel) first last flat st h =
      pass-rpcs
        (wrapped (Site.read_prefix s.prefix)
          (get env (page_key env s first last) (page_opts env s first)) st)
        _ (get-IsErr _ _ _ st)

  either-rpcs :
      (t : Bool) (st : State)
      → 0 < env.fuel
      → ((if t then read_prefix env s else read_single env s) st).0.rpcs ≡ suc st.rpcs
  unfolding read_prefix read_single get
  either-rpcs true st h =
      pass-rpcs (pages env s env.fuel true [] [] st) _ (pages-IsErr env.fuel true [] [] st)
      ∙ pages-rpcs env.fuel true [] [] st h
  either-rpcs false st h =
      pass-rpcs (wrapped (Site.read_single s.key) (get env s.key (read_opts env s false)) st) _
        (get-IsErr _ _ _ st)

  -- A read of an open provider sends one Get.
  pub read_ctx-rpcs :
      (st : State)
      → st.closed ≡ false
      → s.blob ≡ false
      → 0 < env.fuel
      → (read_ctx env s st).0.rpcs ≡ suc st.rpcs
  unfolding read_ctx
  read_ctx-rpcs st opened nested h =
      simp (opened, nested)
        (pass-rpcs ((if is_empty s.key then read_prefix env s else read_single env s) st)
            (counted env s) (either-IsErr (is_empty s.key) st)
          ∙ either-rpcs (is_empty s.key) st h)

  pub read_bytes_ctx-rpcs :
      (st : State)
      → st.closed ≡ false
      → s.blob ≡ true
      → (read_bytes_ctx env s st).0.rpcs ≡ suc st.rpcs
  unfolding read_bytes_ctx get
  read_bytes_ctx-rpcs st opened raw =
      simp (opened, raw)
        (pass-rpcs (wrapped (read_blob s.key) (get env s.key (read_opts env s false)) st) _
          (get-IsErr _ _ _ st))
