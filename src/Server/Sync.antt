-- ===== src/Server/Sync.antt =====
-- The limits that the server reports and those that its stores use.
use dbx_plugin_kafka.Base.{◌*◌, ◌≡◌, ◌≢◌, refl, ap, Bool, true, false, some, string_eq}
use dbx_plugin_kafka.Base.Int.{pos, pos_part}
use dbx_plugin_kafka.Base.Dict.{Dict}
use dbx_plugin_kafka.Base.Result.{Result, ok, err}
use dbx_plugin_kafka.Confirm
use dbx_plugin_kafka.Confirm.{ConfirmStore, new_confirm_store}
use dbx_plugin_kafka.Cursor
use dbx_plugin_kafka.Cursor.{CursorStore, new_cursor_store}
use dbx_plugin_kafka.Settings.{Settings, save_settings}
use dbx_plugin_kafka.Settings.Range.{IsSanitized}
use dbx_plugin_kafka.Settings.Persist.{forgetful, load-save}
use dbx_plugin_kafka.Server.{Server, SetError, not_persisted, seconds, readable, new_server}

-- The stores use the limits of the settings.
pub record InSync (settings : Settings) (cursors : CursorStore) (confirms : ConfirmStore)
    : Type 0 where
  pub cursor_ttl : cursors.ttl ≡ pos_part settings.cursor_ttl_secs * 1000000000
  pub sessions : cursors.capacity ≡ pos_part settings.max_cursor_sessions
  pub confirm_ttl : confirms.ttl ≡ pos_part settings.confirm_ttl_secs * 1000000000

-- What holds after an update that was accepted: `t` is the server, `answer` what the caller is told.
pub record Accepted (writes : Bool) (s t : Server) (answer : Result SetError Settings)
    : Type 0 where
  pub in_range : IsSanitized t.settings
  pub in_sync : InSync t.settings t.cursors t.confirms
  pub saved :
      (s.has_dir ≡ true)
      → (writes ≡ true)
      → (t.file ≡ some (save_settings t.settings)) × (answer ≡ ok t.settings)
  pub lost :
      (s.has_dir ≡ true) → (writes ≡ false) → (t.file ≡ s.file) × (answer ≡ err not_persisted)

pub record Refused (s t : Server) (answer : Result SetError Settings) : Type 0 where
  pub unchanged : t ≡ s
  pub told : (r : Settings) → answer ≢ ok r

-- After a restart on a file that was saved, the settings are those of `forgetful`, and the cursors and
-- the tokens do not follow what was saved: a token lives 60 seconds whatever the settings say.
pub new_server_restart :
    (s : Settings)
    → IsSanitized s
    → ((new_server true (some (save_settings s))).settings ≡ forgetful s)
      × ((new_server true (some (save_settings s))).confirms.ttl ≡ 60 * 1000000000)
      × ((new_server true (some (save_settings s))).cursors.ttl ≡ 600 * 1000000000)
      × ((new_server true (some (save_settings s))).cursors.capacity ≡ 8)
unfolding new_server readable new_confirm_store new_cursor_store
new_server_restart s h =
    let same = load-save s h in
    (
      same,
      refl,
      ap (λ t. (new_cursor_store (seconds t.cursor_ttl_secs) t.max_cursor_sessions (pos 0)).ttl)
          same,
      ap
          (λ t.
            (new_cursor_store (seconds t.cursor_ttl_secs) t.max_cursor_sessions (pos 0)).capacity)
          same,
    )
