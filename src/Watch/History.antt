-- ===== src/Watch/History.antt =====
-- What etcd's watch promises: the changes of the store, in the order of their revisions.
use koanf_etcd.Base.{
  Bool, ℕ, ◌+◌, ◌≤◌, not, ◌&&◌, is_some, List, [], ◌∷◌, ◌++◌, All, ltb, ◌≡◌, inl, inr, refl, sym,
  ap, ◌∙◌, arith, Bool-cases, Option-cases, if◌then◌else◌,
}
use koanf_etcd.Client.{ClientEvent}
use koanf_etcd.Client.Changes.{pick}
use koanf_etcd.Settings.{Settings}
use koanf_etcd.Provider.{Env}
use koanf_etcd.Watch.Session.{Input, ctx_done, channel_closed, response, timer_fired}
use koanf_etcd.Watch.Session.Delivery.{wanted, observed}
use koanf_etcd.Watch.Session.Progress.{largest}

-- The changes of the watched keys, the oldest first.
abbrev pub IsAscending : List ClientEvent → Type 0
IsAscending [] = Unit
IsAscending (x ∷ xs) = All (λ y. x.kv.mod_revision ≤ y.kv.mod_revision) xs × IsAscending xs

-- Those with a revision in [from, to).
abbrev pub between : ℕ → ℕ → List ClientEvent → List ClientEvent
between from to [] = []
between from to (x ∷ xs) =
    if not (ltb x.kv.mod_revision from) && ltb x.kv.mod_revision to
    then x ∷ between from to xs
    else between from to xs

-- The events of the responses up to the end of the session.
abbrev pub brought : List Input → List ClientEvent
brought [] = []
brought (ctx_done ∷ is) = []
brought (channel_closed ∷ is) = []
brought (response r ∷ is) = if is_some r.failure then [] else r.events ++ brought is
brought (timer_fired ∷ is) = brought is

-- One past the largest header of the session, and `from` if it has seen none.
abbrev pub reached : ℕ → List Input → ℕ
reached from is = if ltb 0 (largest 0 is) then largest 0 is + 1 else from

-- What etcd documents of the events on a Watch from the revision `from`, when `sent` says which
-- changes are for it: they are the changes from there on, in the order of their revisions, each
-- once and none left out, as far as the session got, to the revisions below `to`; the header of a
-- response has the store's revision, which is not behind the events sent, while it may be ahead.
abbrev pub Delivers : (ClientEvent → Bool) → List ClientEvent → ℕ → ℕ → List Input → Type 0
Delivers sent changes from to is =
    (from ≤ to) × (to ≤ reached from is) × (brought is ≡ pick sent (between from to changes))

between-later :
    (a b : ℕ) (xs : List ClientEvent) → All (λ y. b ≤ y.kv.mod_revision) xs → between a b xs ≡ []
between-later a b [] h = refl
between-later a b (x ∷ xs) (late, h) = ground (arith, between-later a b xs h)

All-from :
    (a b : ℕ) (xs : List ClientEvent)
    → a ≤ b
    → All (λ y. b ≤ y.kv.mod_revision) xs
    → All (λ y. a ≤ y.kv.mod_revision) xs
All-from a b [] h k = tt
All-from a b (x ∷ xs) h (k, ks) = (omega arith, All-from a b xs h ks)

-- Adjacent ranges.
pub between-append :
    (a b c : ℕ) (xs : List ClientEvent)
    → IsAscending xs
    → a ≤ b
    → b ≤ c
    → between a b xs ++ between b c xs ≡ between a c xs
between-append a b c [] h p q = refl
between-append a b c (x ∷ xs) (first, h) p q = elim (Bool-cases (ltb x.kv.mod_revision b)) [
  | inl early ↦ ground (arith, between-append a b c xs h p q)
  | inr late ↦ ground (
    arith,
    between-append a b c xs h p q,
    between-later a b xs (All-from b x.kv.mod_revision xs (ground arith) first),
  )
]

pub between_self : (a : ℕ) (xs : List ClientEvent) → between a a xs ≡ []
between_self a [] = refl
between_self a (x ∷ xs) = ground (arith, between_self a xs)

module _ {V : Type 0} (env : Env V) (s : Settings V) where
  wanted-append :
      (xs ys : List ClientEvent) → wanted env s (xs ++ ys) ≡ wanted env s xs ++ wanted env s ys
  wanted-append [] ys = refl
  wanted-append (x ∷ xs) ys = ground (arith, wanted-append xs ys)

  pub wanted-pick :
      (p : ClientEvent → Bool) (xs ys : List ClientEvent)
      → wanted env s (pick p (xs ++ ys)) ≡ wanted env s (pick p xs) ++ wanted env s (pick p ys)
  wanted-pick p [] ys = refl
  wanted-pick p (x ∷ xs) ys = ground (arith, wanted-pick p xs ys)

  -- What a session observes of the events that it is brought.
  pub observed-brought : (is : List Input) → observed env s is ≡ wanted env s (brought is)
  unfolding observed
  observed-brought [] = refl
  observed-brought (ctx_done ∷ is) = refl
  observed-brought (channel_closed ∷ is) = refl
  observed-brought (response r ∷ is) = elim (Option-cases r.failure) [
    | inl fine ↦
        rw (fine, observed)
          (ap (λ t. wanted env s r.events ++ t) (observed-brought is)
            ∙ sym (wanted-append r.events (brought is)))
    | inr (e, bad) ↦ rw (bad, observed) refl
  ]
  observed-brought (timer_fired ∷ is) = observed-brought is
