-- ===== src/Watch/Loop/Pending.antt =====
-- A resync that is pending: it is tried again for as long as it fails, and no Watch is opened.
use koanf_etcd.Base.{ℕ, ◌+◌, true, false, ◌≡◌}
use koanf_etcd.Settings.{Settings}
use koanf_etcd.Watch.Loop.{Loop, Round}

-- The context is not done in these rounds.
abbrev pub IsLive : Round → Type 0
IsLive r = (r.done_at_start ≡ false) × (r.interrupted ≡ false)

-- After `n` more tries.
abbrev pub Tried : Loop → ℕ → Loop → Type 0
Tried l n last =
    (last.pending ≡ true) × (last.start_rev ≡ l.start_rev) × (last.attempt ≡ l.attempt + n)
