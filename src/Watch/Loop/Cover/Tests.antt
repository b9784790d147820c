-- ===== src/Watch/Loop/Cover/Tests.antt =====
-- A session that is compacted away, its resync, and a session behind it.
use koanf_etcd.Base.{
  true, false, none, some, List, [], ◌∷◌, Bytes, codes, ◌≡◌, inr, refl, sym, subst, arith, ℕ,
}
use koanf_etcd.Base.Int.{pos}
use koanf_etcd.Errors.{ok, is_compacted}
use koanf_etcd.Client.{Kind, put, delete, ClientEvent}
use koanf_etcd.Client.Changes.{unfiltered, start_of}
use koanf_etcd.Range.{prefix_end}
use koanf_etcd.Settings.{Settings, new_settings}
use koanf_etcd.Provider.{State, new_stats}
use koanf_etcd.Read.{read_ctx}
use koanf_etcd.Read.Samples.{
  compaction, store, world, config, idle, snap, sorted, bytes, found, snapshot_map-found,
}
use koanf_etcd.Watch.{watch_key, watch_opts}
use koanf_etcd.Watch.Session.{response, channel_closed, Input}
use koanf_etcd.Watch.History.{reached}
use koanf_etcd.Watch.Loop.{
  Loop, Next, Round, again, returns, blocked, iterate, watch_loop, initial_loop,
  initial_watch_revision,
}
use koanf_etcd.Watch.Loop.Recovery.{resumed, iterate_recovers}
use koanf_etcd.Watch.Loop.Replay.{IsWatching}
use koanf_etcd.Watch.Loop.Cover.{EndsCovered}
use koanf_etcd.Watch.Loop.Cover.Run.{Goes, Sessions, goal, watch_loop-EndsCovered}

abbrev resuming : Settings Bytes
resuming = record config { resume_from_revision = true; max_pending_events = pos 10 }

abbrev watching : State
watching = record idle {
  stats = record new_stats { revision = 3 };
  watch_typed_cb = some 2;
  watch_cancel = some 0;
  watch_done = some 0;
}

abbrev change : Kind → Bytes → ℕ → ClientEvent
change k key n = record { kind = k; kv = record { key = key; value = codes "y"; mod_revision = n } }

-- The read of the resync is at revision 7.
abbrev changes : List ClientEvent
changes =
    change put (codes "/app/a") 4
    ∷ change delete (codes "/app/d") 5
    ∷ change put (codes "/app/b") 6
    ∷ change put (codes "/app/c") 8
    ∷ []

abbrev brings : ℕ → Bytes → Input
brings n key = response (record { failure = none; revision = n; events = change put key n ∷ [] })

abbrev round : List Input → Round
round inputs = record {
  done_at_start = false;
  inputs = inputs;
  done_after = false;
  int_n = λ n. pos 0;
  interrupted = false;
}

abbrev compacted_session : Round
compacted_session = round (
    brings 4 (codes "/app/a")
    ∷ response (record { failure = some compaction; revision = 4; events = [] })
    ∷ [])

abbrev next_session : Round
next_session = round (brings 8 (codes "/app/c") ∷ channel_closed ∷ [])

-- Both sessions bring all changes up to the revision of their last header.
abbrev got_to : ℕ → List Input → ℕ
got_to from inputs = reached from inputs

watched : IsWatching world resuming changes
unfolding config new_settings
watched = record { mode = inr (refl, refl); key_bytes = ground arith; ascending = ground arith }

read_ctx-found : (read_ctx world resuming idle).1 ≡ ok found
unfolding read_ctx config new_settings prefix_end
read_ctx-found = refl

Goes-again :
    (P : Loop → State → Type 0) (x : State × Next) (l : Loop)
    → x.1 ≡ again l
    → ((st : State) → P l st)
    → Goes world resuming changes got_to P x
Goes-again P (st, n) l e h =
    subst (λ n. Goes world resuming changes got_to P (st, n)) (sym e) (h st)

Goes-any : (x : State × Next) → Goes world resuming changes got_to (λ l st. Unit) x
Goes-any (st, again l) = tt
Goes-any (st, returns) = tt
Goes-any (st, blocked l) = tt

sessions :
    Sessions world resuming changes got_to
      (compacted_session ∷ next_session ∷ [])
      (initial_loop world resuming watching)
      watching
unfolding config new_settings initial_watch_revision watch_key watch_opts unfiltered start_of
    prefix_end is_compacted
sessions = (
  inr (inr (ground arith, inr refl)),
  Goes-again (Sessions world resuming changes got_to (next_session ∷ []))
      (iterate world resuming compacted_session (initial_loop world resuming watching) watching)
      (resumed world resuming 2 7 (initial_loop world resuming watching))
      (iterate_recovers world resuming 2 store 7 found compacted_session _ watching false compaction
        snap sorted bytes (omega arith) (snapshot_map-found resuming refl refl read_ctx-found) refl
        refl refl refl refl refl refl refl).0
      (λ st.
        (inr (inr (ground arith, inr refl)), Goes-any (iterate world resuming next_session _ st))),
)

watch_loop-EndsCovered_example :
    EndsCovered world resuming changes 2 false 4 []
      (goal world resuming changes got_to
        (compacted_session ∷ next_session ∷ [])
        (initial_loop world resuming watching)
        watching)
      (watch_loop world resuming (compacted_session ∷ next_session ∷ []) watching)
unfolding config new_settings
watch_loop-EndsCovered_example =
    watch_loop-EndsCovered world resuming changes got_to 2 (compacted_session ∷ next_session ∷ [])
      watching refl (omega arith) refl watched sessions
