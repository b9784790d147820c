-- ===== src/Transform/Tests.antt =====
-- Tests of the key transform, and its theorem at a concrete key.
use koanf_etcd.Base.{ℕ, ◌++◌, codes, arith, ◌≡◌, refl, if◌then◌else◌}
use koanf_etcd.Settings.{Settings, new_settings}
use koanf_etcd.Strings.{replace_byte, trim_prefix}
use koanf_etcd.Transform.{slash, make_default_key_transform}
use koanf_etcd.Transform.Laws.{NoSlash, make_default_key_transform_lem}

abbrev app : Settings ℕ
unfolding new_settings
app = record new_settings { prefix = codes "/app/" }

make_default_key_transform_tests :
    (make_default_key_transform app (codes "/app/db/host") ≡ codes "db.host")
    × (make_default_key_transform app (codes "/other") ≡ codes ".other")
unfolding make_default_key_transform app new_settings replace_byte trim_prefix
make_default_key_transform_tests = (refl, refl)

make_default_key_transform_lem_example :
    NoSlash (make_default_key_transform app (codes "db/host"))
    × (make_default_key_transform app (app.prefix ++ codes "db/host")
        ≡ replace_byte
            (if app.trim_prefix then codes "db/host" else app.prefix ++ codes "db/host")
            slash
            app.delim)
unfolding app new_settings
make_default_key_transform_lem_example =
    make_default_key_transform_lem app (codes "db/host") (ground arith)
