-- ===== src/Read/Gets.antt =====
-- How many Gets a prefix read sends.
use koanf_etcd.Base.{
  ℕ, zero, suc, ◌+◌, ◌*◌, ◌<◌, ◌≤◌, Bool, true, false, ◌&&◌, List, [], ◌∷◌, Bytes, is_empty, length,
  take, drop, length-drop, has_prefix, ◌≡◌, ◌⊎◌, inl, inr, refl, sym, ap, subst, ◌∙◌, arith,
  if◌then◌else◌,
}
use native.Mathlib.Nat.{suc-mul}
use koanf_etcd.Base.Int.{ℤ, pos_part, is_pos}
use koanf_etcd.Errors.{Result, ok, err, Site, plain, more_with_empty_page, or_wrap}
use koanf_etcd.Client.{KeyValue, GetResponse}
use koanf_etcd.Client.Server.{limited, IsSorted, last_key}
use koanf_etcd.Path.{Map}
use koanf_etcd.Settings.{Settings}
use koanf_etcd.Provider.{State, Env}
use koanf_etcd.Read.{
  pass, fail, give, after, is_nil, get, take_page, page_key, page_opts, pages, store_revision,
  finish_prefix, call_on_empty, counted, count_read, read_ctx,
}
use koanf_etcd.Read.Down.{IsErr, pass-IsErr}
use koanf_etcd.Read.Requests.{IsSnapshot, page_limit, IsRest, served, next-IsRest}
use koanf_etcd.Read.Entries.{all_entries, take_page_lem}
use koanf_etcd.Read.Pages.{rest_of_page}
use koanf_etcd.Read.Snapshot.{
  AllBytes, under, scan-under, length-select, rest_of_read, read_ctx_of_prefix,
}

-- After the Get with which `c` are sent, as many more as there are full pages with keys behind them;
-- no fewer, unless the read fails.
abbrev pub Ends {ℓ} : {A : Type ℓ} → ℤ → ℕ → ℕ → State × Result A → Type 0
Ends limit keys c x =
    (k : ℕ) × (x.0.rpcs ≡ c + k)
    × ((k ≡ 0) ⊎ ((is_pos limit ≡ true) × (k * pos_part limit < keys)))
    × (IsErr x.1 ⊎ ((is_pos limit ≡ false) ⊎ (keys ≤ suc k * pos_part limit)))

-- The read has asked for all keys, or has failed.
abbrev IsDone {ℓ} : {A : Type ℓ} → ℤ → ℕ → ℕ → Result A → Type 0
IsDone limit keys k r = IsErr r ⊎ ((is_pos limit ≡ false) ⊎ (keys ≤ suc k * pos_part limit))

one_more-IsDone {ℓ} :
    {A : Type ℓ} (limit : ℤ) (n k : ℕ) (xs : List KeyValue) (r : Result A)
    → pos_part limit ≡ suc n
    → n < length xs
    → IsDone limit (length (drop n xs)) k r
    → IsDone limit (suc (length xs)) (suc k) r
one_more-IsDone limit n k xs r same more (inl failed) = inl failed
one_more-IsDone limit n k xs r same more (inr (inl none_set)) = inr (inl none_set)
one_more-IsDone limit n k xs r same more (inr (inr le)) =
    inr (inr (omega (arith, suc-mul (suc k) (pos_part limit), length-drop n xs)))

one_more-Ends {ℓ} :
    {A : Type ℓ} (limit : ℤ) (n c : ℕ) (xs : List KeyValue) (x : State × Result A)
    → is_pos limit ≡ true
    → pos_part limit ≡ suc n
    → n < length xs
    → Ends limit (length (drop n xs)) (suc c) x
    → Ends limit (suc (length xs)) c x
one_more-Ends limit n c xs x p same more (k, sent, inl last, all) = (
  1,
  omega arith,
  inr (p, rw same (omega arith)),
  one_more-IsDone limit n 0 xs x.1 same more
      (subst (λ m. IsDone limit (length (drop n xs)) m x.1) last all),
)
one_more-Ends limit n c xs x p same more (k, sent, inr (q, full), all) = (
  suc k,
  omega arith,
  inr (p, omega (arith, suc-mul k (pos_part limit), length-drop n xs)),
  one_more-IsDone limit n k xs x.1 same more all,
)

module _ {V : Type 0} (env : Env V) (s : Settings V) where
  -- The rest of a round ends the read, or goes on with the next page.
  rest_of_page-Ends :
      (fuel keys : ℕ) (resp : GetResponse) (st : State) (x : Result (Map V × Bytes))
      → ((m : Map V) (key : Bytes)
          → resp.more ≡ true
          → is_pos s.limit ≡ true
          → x ≡ ok (m, key)
          → Ends s.limit keys st.rpcs (pages env s fuel false key m st))
      → (resp.more ≡ false → (is_pos s.limit ≡ false) ⊎ (keys ≤ pos_part s.limit))
      → Ends s.limit keys st.rpcs (pass (st, x) (rest_of_page env s fuel resp))
  rest_of_page-Ends fuel keys resp st (err e) next whole = (0, omega arith, inl refl, inl tt)
  rest_of_page-Ends fuel keys resp st (ok (m, key)) next whole =
      choose (resp.more && is_nil resp.kvs) resp.more (is_pos s.limit) refl whole
        (λ e f. next m key e f refl)
    where
      last_page :
          (is_pos s.limit ≡ false) ⊎ (keys ≤ pos_part s.limit)
          → Ends {A = ℕ × Map V} s.limit keys st.rpcs (give (resp.revision, m) st)
      last_page (inl none_set) = (0, omega arith, inl refl, inr (inl none_set))
      last_page (inr le) = (0, omega arith, inl refl, inr (inr (omega arith)))

      choose :
          (a b p : Bool)
          → is_pos s.limit ≡ p
          → (b ≡ false → (is_pos s.limit ≡ false) ⊎ (keys ≤ pos_part s.limit))
          → (b ≡ true → p ≡ true → Ends s.limit keys st.rpcs (pages env s fuel false key m st))
          → Ends {A = ℕ × Map V} s.limit keys st.rpcs (
              (if a
                  then fail (plain (more_with_empty_page s.prefix))
                  else if b && p
                  then pages env s fuel false key m
                  else give (resp.revision, m))
                st)
      choose true b p q whole next = (0, omega arith, inl refl, inl tt)
      choose false true true q whole next = next refl refl
      choose false true false q whole next = last_page (inl q)
      choose false false p q whole next = last_page (whole refl)

  got :
      (fuel : ℕ) (st : State) (site : Site) (flat : Map V) (last : Bytes) (x : Result GetResponse)
      (resp : GetResponse)
      → x ≡ ok resp
      → pass
          (st, or_wrap site x)
          (λ r. (λ st'. pass (st', take_page env s r.kvs flat last) (rest_of_page env s fuel r)))
        ≡ pass (st, take_page env s resp.kvs flat last) (rest_of_page env s fuel resp)
  got fuel st site flat last x resp h = rw h refl

  pages_got :
      (fuel : ℕ) (first : Bool) (last : Bytes) (flat : Map V) (st : State) (resp : GetResponse)
      → env.get st.rpcs (page_key env s first last) (page_opts env s first) ≡ ok resp
      → pages env s (suc fuel) first last flat st
        ≡ pass
            (
              (get env (page_key env s first last) (page_opts env s first) st).0,
              take_page env s resp.kvs flat last,
            )
            (rest_of_page env s fuel resp)
  unfolding pages get
  pages_got fuel first last flat st resp h =
      got fuel _ (Site.read_prefix s.prefix) flat last
        (env.get st.rpcs (page_key env s first last) (page_opts env s first)) resp h

  last_key_of :
      (r : Result (Map V)) (l key : Bytes) (m : Map V)
      → after {B = Map V × Bytes} r (λ m. ok (m, l)) ≡ ok (m, key)
      → key ≡ l
  last_key_of (err e) l key m h = cc
  last_key_of (ok n) l key m h = cc

  -- A page that the server answers from `rest`.
  page-Ends :
      (fuel rev : ℕ) (st : State) (rest : List KeyValue) (flat : Map V) (last : Bytes)
      → ((n : ℕ) (x : KeyValue) (xs : List KeyValue) (m : Map V)
          → rest ≡ x ∷ xs
          → Ends s.limit
              (length (drop n xs))
              (suc st.rpcs)
              (pages env s fuel false (last_key x.key (take n xs)) m st))
      → Ends s.limit (length rest) st.rpcs (
          pass
            (st, take_page env s (limited rev (page_limit env s) rest).kvs flat last)
            (rest_of_page env s fuel (limited rev (page_limit env s) rest)))
  unfolding page_limit
  page-Ends fuel rev st rest flat last ih = go (is_pos s.limit) (pos_part s.limit) rest refl refl ih
    where
      go :
          (b : Bool) (k : ℕ) (kvs : List KeyValue)
          → is_pos s.limit ≡ b
          → pos_part s.limit ≡ k
          → ((n : ℕ) (x : KeyValue) (xs : List KeyValue) (m : Map V)
              → kvs ≡ x ∷ xs
              → Ends s.limit
                  (length (drop n xs))
                  (suc st.rpcs)
                  (pages env s fuel false (last_key x.key (take n xs)) m st))
          → Ends s.limit (length kvs) st.rpcs (
              pass
                (st, take_page env s (limited rev (if b then k else 0) kvs).kvs flat last)
                (rest_of_page env s fuel (limited rev (if b then k else 0) kvs)))
      go false k kvs e f ih =
          rest_of_page-Ends fuel (length kvs) (limited rev 0 kvs) st _
            (λ m key more. absurd (ground (arith, more))) (λ h. inl e)
      go true zero kvs e f ih =
          rest_of_page-Ends fuel (length kvs) (limited rev 0 kvs) st _
            (λ m key more. absurd (ground (arith, more))) (λ h. ground arith)
      go true (suc n) [] e f ih =
          rest_of_page-Ends fuel 0 (limited rev (suc n) []) st _
            (λ m key more. absurd (ground (arith, more))) (λ h. inr (omega arith))
      go true (suc n) (x ∷ xs) e f ih =
          rest_of_page-Ends fuel (suc (length xs)) (limited rev (suc n) (x ∷ xs)) st _
            (λ m key more p h.
              one_more-Ends s.limit n st.rpcs xs (pages env s fuel false key m st) p f
                (ground (arith, more))
                (subst
                  (λ l.
                    Ends s.limit (length (drop n xs)) (suc st.rpcs) (pages env s fuel false l m st))
                  (sym (
                    last_key_of (all_entries env s (x ∷ take n xs) flat) _ key m
                      (sym (take_page_lem env s (x ∷ take n xs) flat last) ∙ h)))
                  (ih n x xs m refl)))
            (λ h. inr (ground (arith, f, h)))

  pages-Ends :
      (store : List KeyValue) (rev fuel : ℕ) (first : Bool) (last : Bytes) (rest : List KeyValue)
      (flat : Map V) (st : State)
      → IsSnapshot env store rev
      → IsSorted store
      → IsRest env s store first last rest
      → length rest < fuel
      → Ends s.limit (length rest) (suc st.rpcs) (pages env s fuel first last flat st)
  unfolding get
  pages-Ends store rev zero first last rest flat st snap h r enough = absurd (omega arith)
  pages-Ends store rev (suc fuel) first last rest flat st snap h r enough =
      let st' = (get env (page_key env s first last) (page_opts env s first) st).0 in
      subst (λ x. Ends s.limit (length rest) (suc st.rpcs) x)
        (sym (
          pages_got fuel first last flat st _
            (served env s store rev st.rpcs first last rest snap r)))
        (page-Ends fuel rev st' rest flat last λ n x xs m e.
          pages-Ends store rev fuel false (last_key x.key (take n xs)) (drop n xs) m st' snap h
            (next-IsRest env s store first last n x xs h (r ∙ e))
            (omega (arith, length-drop n xs, ap length e)))

  counted-rpcs : (x : State × Result (Map V)) → (pass x (counted env s)).0.rpcs ≡ x.0.rpcs
  unfolding counted count_read
  counted-rpcs (st, err e) = refl
  counted-rpcs (st, ok m) = refl

  finish_prefix-rpcs : (flat : Map V) (st : State) → (finish_prefix env s flat st).0.rpcs ≡ st.rpcs
  unfolding finish_prefix call_on_empty
  finish_prefix-rpcs flat st = ground arith

  rest_of_read-rpcs :
      (x : State × Result (ℕ × Map V))
      → (pass (pass x (rest_of_read env s)) (counted env s)).0.rpcs ≡ x.0.rpcs
  unfolding store_revision
  rest_of_read-rpcs (st, err e) = refl
  rest_of_read-rpcs (st, ok (rev, flat)) =
      counted-rpcs (finish_prefix env s flat (store_revision rev st).0)
      ∙ finish_prefix-rpcs flat (store_revision rev st).0

  -- A read whose pages have failed fails.
  IsDone-read :
      (k keys : ℕ) (st : State) (x : State × Result (ℕ × Map V))
      → read_ctx env s st ≡ pass (pass x (rest_of_read env s)) (counted env s)
      → IsDone s.limit keys k x.1
      → IsDone s.limit keys k (read_ctx env s st).1
  IsDone-read k keys st x e (inl failed) = inl (
      subst (λ y. IsErr y.1) (sym e)
        (pass-IsErr (pass x (rest_of_read env s)) (counted env s)
          (pass-IsErr x (rest_of_read env s) failed)))
  IsDone-read k keys st x e (inr all) = inr all

  -- Against a server that answers from one state of a sorted store, and with fuel above the size of
  -- that store, a prefix read by an open provider comes to an end: after its first Get it sends one
  -- more for each full page with keys behind it. All its Gets but the last together ask for fewer keys
  -- than there are under the prefix; all together, unless the read fails, for no fewer; and with no
  -- limit it sends no other.
  pub read_ctx-Ends :
      (store : List KeyValue) (rev : ℕ) (st : State)
      → IsSnapshot env store rev
      → IsSorted store
      → AllBytes store
      → length store < env.fuel
      → st.closed ≡ false
      → s.blob ≡ false
      → is_empty s.key ≡ true
      → Ends s.limit (length (under s.prefix store)) (suc st.rpcs) (read_ctx env s st)
  unfolding page_key
  read_ctx-Ends store rev st snap sorted bytes enough opened nested prefixed =
      let (k, sent, bound, all) =
        pages-Ends store rev env.fuel true [] (under s.prefix store) [] st snap sorted
          (scan-under s.prefix store bytes)
          (omega (arith, length-select (λ x. has_prefix s.prefix x.key) store)) in
      (
        k,
        ap (λ x. x.0.rpcs) (read_ctx_of_prefix env s st opened nested prefixed)
            ∙ (rest_of_read-rpcs (pages env s env.fuel true [] [] st) ∙ sent),
        bound,
        IsDone-read k (length (under s.prefix store)) st (pages env s env.fuel true [] [] st)
            (read_ctx_of_prefix env s st opened nested prefixed) all,
      )
