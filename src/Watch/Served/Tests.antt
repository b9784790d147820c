-- ===== src/Watch/Served/Tests.antt =====
-- A watch on the puts under a prefix, with changes of which etcd sends one.
use koanf_etcd.Base.{true, false, List, [], ◌∷◌, Bytes, codes, inr, ◌≡◌, refl, arith}
use koanf_etcd.Client.{Kind, put, delete, ClientEvent}
use koanf_etcd.Client.Changes.{pick, unfiltered}
use koanf_etcd.Range.{prefix_end}
use koanf_etcd.Settings.{Settings}
use koanf_etcd.Read.Samples.{world, config}
use koanf_etcd.Settings.{new_settings}
use koanf_etcd.Watch.{watch_key, watch_opts}
use koanf_etcd.Watch.Session.Delivery.{wanted}
use koanf_etcd.Watch.Served.{is_served, is_watched, wanted-is_served}

abbrev puts : Settings Bytes
puts = record config { filter_set = true; want_put = true; want_delete = false }

abbrev change : Kind → Bytes → ClientEvent
change k key = record { kind = k; kv = record { key = key; value = codes "y"; mod_revision = 8 } }

abbrev changes : List ClientEvent
changes =
    change put (codes "/app/a") ∷ change delete (codes "/app/b") ∷ change put (codes "/other") ∷ []

is_served-change : pick (is_served world puts 8) changes ≡ change put (codes "/app/a") ∷ []
unfolding config new_settings watch_key watch_opts unfiltered prefix_end
is_served-change = refl

wanted-is_served_example :
    wanted world puts (pick (is_served world puts 8) changes)
    ≡ wanted world puts (pick (is_watched world puts) changes)
unfolding config new_settings
wanted-is_served_example = wanted-is_served world puts 8 changes (inr (refl, refl)) (ground arith)
