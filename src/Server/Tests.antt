-- ===== src/Server/Tests.antt =====
-- Runs of the settings handler of backend/internal/mcp/server.go on small inputs.
use dbx_plugin_kafka.Base.{◌*◌, ◌≡◌, String, true, [], ◌∷◌, none, some, string_eq}
use dbx_plugin_kafka.Base.Int.{pos}
use dbx_plugin_kafka.Base.Dict.{Dict}
use dbx_plugin_kafka.Settings.{Raw, number, default_settings, save_settings}
use dbx_plugin_kafka.Settings.Range.{default_settings-IsSanitized}
use dbx_plugin_kafka.Settings.Persist.{forgetful}
use dbx_plugin_kafka.Server.{Server, new_server}
use dbx_plugin_kafka.Server.Sync.{new_server_restart}

abbrev updates : Dict String Raw
updates = ("confirmTtlSecs", number (record { numerator = pos 300; bits = 0 })) ∷ []

abbrev fresh : Server
fresh = new_server true none

abbrev restarted : Server
restarted = new_server true (some (save_settings default_settings))

new_server_restart_example :
    (restarted.settings ≡ forgetful default_settings)
    × (restarted.confirms.ttl ≡ 60 * 1000000000)
    × (restarted.cursors.ttl ≡ 600 * 1000000000)
    × (restarted.cursors.capacity ≡ 8)
new_server_restart_example = new_server_restart default_settings default_settings-IsSanitized
