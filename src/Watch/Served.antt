-- ===== src/Watch/Served.antt =====
-- watch.go, `watchOpts` and `translateEvent`: what etcd leaves out of a watch, the callback would
-- not be handed either.
mod Tests
use koanf_etcd.Base.{
  ℕ, ◌≤◌, sym, ap, subst, ◌∙◌, true, false, Bool, List, [], ◌∷◌, ◌++◌, Bytes, is_empty, str_eq,
  has_prefix, All, ◌≡◌, ◌⊎◌, inl, inr, refl, arith, if◌then◌else◌,
}
use koanf_etcd.Client.{Kind, put, delete, ClientEvent, in_range}
use koanf_etcd.Client.Server.{range_end}
use koanf_etcd.Client.Changes.{pick, unfiltered, start_of, is_sent}
use koanf_etcd.Range.Laws.{IsByte, in_range-prefix_end}
use koanf_etcd.Strings.Order.{str_lt-nul, str_eq-str_lt}
use koanf_etcd.Settings.{Settings}
use koanf_etcd.Provider.{Env, Event}
use koanf_etcd.Watch.{is_wanted, watch_key, watch_opts}
use koanf_etcd.Watch.Session.{Input}
use koanf_etcd.Watch.Session.Delivery.{wanted, observed}
use koanf_etcd.Watch.History.{
  IsAscending, between, between-append, between_self, Delivers, reached, observed-brought,
  wanted-pick,
}

-- The keys of the changes are made of bytes.
abbrev pub AllKeyBytes : List ClientEvent → Type 0
AllKeyBytes = All (λ x. All IsByte x.kv.key)

-- Nothing but the key itself lies in the range that ends right behind it.
in_range-nul :
    (key k : Bytes) → is_empty key ≡ false → in_range key (key ++ 0 ∷ []) k ≡ str_eq key k
in_range-nul [] k h = cc
in_range-nul (c ∷ []) k h = ground (arith, str_lt-nul k (c ∷ []), str_eq-str_lt (c ∷ []) k)
in_range-nul (c ∷ d ∷ key) k h =
    ground (arith, str_lt-nul k (c ∷ d ∷ key), str_eq-str_lt (c ∷ d ∷ key) k)

module _ {V : Type 0} (env : Env V) (s : Settings V) where
  -- A key or a prefix is set, and not both.
  abbrev pub HasMode : Type 0
  HasMode =
      ((is_empty s.key ≡ false) × (is_empty s.prefix ≡ true))
      ⊎ ((is_empty s.key ≡ true) × (is_empty s.prefix ≡ false))

  -- The changes of the key, or of the keys with the prefix.
  abbrev pub is_watched : ClientEvent → Bool
  is_watched ev =
      if is_empty s.prefix then str_eq s.key ev.kv.key else has_prefix s.prefix ev.kv.key

  -- What etcd sends on the Watch that the loop opens at a revision.
  abbrev pub is_served : ℕ → ClientEvent → Bool
  is_served start_rev = is_sent (watch_key env s) (watch_opts env s start_rev)

  is_served_key :
      (start_rev : ℕ) (k : Bytes)
      → HasMode
      → All IsByte k
      → in_range (watch_key env s) (range_end (watch_key env s) (watch_opts env s start_rev)) k
        ≡ (if is_empty s.prefix then str_eq s.key k else has_prefix s.prefix k)
  unfolding watch_key watch_opts
  is_served_key start_rev k (inl (keyed, bare)) b = ground (arith, in_range-nul s.key k)
  is_served_key start_rev k (inr (none_set, prefixed)) b =
      ground (arith, in_range-prefix_end s.prefix k)

  unfiltered-watch_opts :
      (start_rev : ℕ) (k : Kind)
      → is_wanted env s k ≡ true
      → unfiltered (watch_opts env s start_rev) k ≡ true
  unfolding watch_opts unfiltered is_wanted
  unfiltered-watch_opts start_rev put h = ground arith
  unfiltered-watch_opts start_rev delete h = ground arith

  -- The server's filter and the range of the watch leave out nothing that the callback is to see:
  -- of the changes that etcd sends on the options of a Watch, translateEvent keeps the same events,
  -- in the same order, as of all changes of the key, or of the keys with the prefix. For a key or a
  -- prefix that is set, and not both, and for keys made of bytes.
  pub wanted-is_served :
      (start_rev : ℕ) (xs : List ClientEvent)
      → HasMode
      → AllKeyBytes xs
      → wanted env s (pick (is_served start_rev) xs) ≡ wanted env s (pick is_watched xs)
  wanted-is_served start_rev [] m b = refl
  wanted-is_served start_rev (x ∷ xs) m (b, bs) = ground (
    arith,
    is_served_key start_rev x.kv.key m b,
    unfiltered-watch_opts start_rev x.kind,
    wanted-is_served start_rev xs,
  )

  -- What the callback is to be handed of the changes with a revision in [from, to): those of the
  -- watched keys that the filter lets through.
  abbrev pub due : ℕ → ℕ → List ClientEvent → List Event
  due from to changes = wanted env s (pick is_watched (between from to changes))

  pub due-append :
      (a b c : ℕ) (changes : List ClientEvent)
      → IsAscending changes
      → a ≤ b
      → b ≤ c
      → due a b changes ++ due b c changes ≡ due a c changes
  due-append a b c changes h p q =
      sym (wanted-pick env s is_watched (between a b changes) _)
      ∙ ap (λ t. wanted env s (pick is_watched t)) (between-append a b c changes h p q)

  pub due_self : (a : ℕ) (changes : List ClientEvent) → due a a changes ≡ []
  due_self a changes = ap (λ t. wanted env s (pick is_watched t)) (between_self a changes)

  AllKeyBytes-between :
      (from to : ℕ) (xs : List ClientEvent) → AllKeyBytes xs → AllKeyBytes (between from to xs)
  AllKeyBytes-between from to [] h = tt
  AllKeyBytes-between from to (x ∷ xs) (b, bs) = ground (arith, AllKeyBytes-between from to xs)

  -- The Watch asks for the changes from the loop's start revision on.
  pub start_of-watch_opts : (start_rev : ℕ) → start_of (watch_opts env s start_rev) ≡ start_rev
  unfolding watch_opts start_of
  start_of-watch_opts start_rev = ground arith

  -- The inputs are those that etcd documents of the Watch with the loop's options, and bring the
  -- changes below `to`.
  abbrev pub IsServed : List ClientEvent → ℕ → ℕ → List Input → Type 0
  IsServed changes start_rev to is =
      Delivers (is_served start_rev) changes (start_of (watch_opts env s start_rev)) to is

  -- Such a session observes what is due from the loop's start revision on.
  pub observed-due :
      (changes : List ClientEvent) (from to : ℕ) (is : List Input)
      → HasMode
      → AllKeyBytes changes
      → IsServed changes from to is
      → (from ≤ to) × (to ≤ reached from is) × (observed env s is ≡ due from to changes)
  observed-due changes from to is m b c =
      let same = start_of-watch_opts from in
      let (le, ahead, all) = subst (λ n. Delivers (is_served from) changes n to is) same c in
      (
        le,
        ahead,
        observed-brought env s is
            ∙ (ap (wanted env s) all
                ∙ wanted-is_served from _ m (AllKeyBytes-between from to changes b)),
      )
