-- ===== src/Server.antt =====
-- backend/internal/mcp/server.go: how the MCP server keeps its settings, its session tables and its
-- settings file in step. The file is the settings that it holds; whether a write of it succeeds is an
-- input. A server without a data directory has no file. `SettingsSet` lets its lock go after the update of the
-- settings: its parts are steps of their own, and `settings_set` is a call that runs alone.
pub mod Sync
pub mod Overlap
mod Tests
use dbx_plugin_kafka.Base.{
  ℕ, suc, ◌-◌, ◌*◌, String, Bool, true, false, Option, none, some, if◌then◌else◌, string_eq,
}
use dbx_plugin_kafka.Base.Int.{ℤ, pos, negsuc}
use dbx_plugin_kafka.Base.Dict.{Dict}
use dbx_plugin_kafka.Base.Result.{Result, ok, err}
use dbx_plugin_kafka.Confirm
use dbx_plugin_kafka.Confirm.{ConfirmStore, new_confirm_store}
use dbx_plugin_kafka.Cursor
use dbx_plugin_kafka.Cursor.{CursorStore, new_cursor_store}
use dbx_plugin_kafka.Intent.{IntentStore, new_intent_store}
use dbx_plugin_kafka.Settings.{
  Settings, Raw, SettingsError, default_settings, load_settings, save_settings,
  apply_settings_update,
}

pub record Server : Type 0 where
  pub settings : Settings
  pub intents : IntentStore
  pub cursors : CursorStore
  pub confirms : ConfirmStore
  pub has_dir : Bool
  pub file : Option Settings

-- `time.Duration(n) * time.Second`
abbrev pub seconds : ℤ → ℤ
seconds (pos n) = pos (n * 1000000000)
seconds (negsuc n) = negsuc (suc n * 1000000000 - 1)

-- What `LoadSettings` finds: nothing without a data directory.
pub readable : Bool → Option Settings → Option Settings
readable has_dir file = if has_dir then file else none

pub new_server : Bool → Option Settings → Server
unfolding readable
new_server has_dir file =
    let settings = load_settings (readable has_dir file) in
    record {
      settings = settings;
      intents = new_intent_store (pos 0) (pos 0);
      cursors =
          new_cursor_store (seconds settings.cursor_ttl_secs) settings.max_cursor_sessions (pos 0);
      confirms = new_confirm_store;
      has_dir = has_dir;
      file = file;
    }

pub data SetError : Type 0 where
  no_updates : SetError
  rejected : SettingsError → SetError
  not_persisted : SetError

-- The part of `SettingsSet` under the server's lock.
pub apply_update : Dict String Raw → Server → Server × Result SettingsError Settings
apply_update updates s = elim (apply_settings_update s.settings updates) [
  | err e ↦ (s, err e)
  | ok settings ↦ (record s { settings = settings }, ok settings)
]

-- The parts behind it, each under the lock of a store.
pub set_cursor_ttl : Settings → Server → Server
set_cursor_ttl settings s = record s {
  cursors = Cursor.set_ttl (seconds settings.cursor_ttl_secs) s.cursors;
}

pub set_cursor_capacity : Settings → Server → Server
set_cursor_capacity settings s = record s {
  cursors = Cursor.set_capacity settings.max_cursor_sessions s.cursors;
}

pub set_confirm_ttl : Settings → Server → Server
set_confirm_ttl settings s = record s {
  confirms = Confirm.set_ttl (seconds settings.confirm_ttl_secs) s.confirms;
}

-- `SaveSettings`, with the outcome of writing the file; `false` is an error.
pub save : Bool → Settings → Server → Server × Bool
save writes settings s =
    if s.has_dir
    then if writes then (record s { file = some (save_settings settings) }, true) else (s, false)
    else (s, true)

-- Under the server's lock again.
pub settings_get : Server → Settings
settings_get s = s.settings

-- The stores take the new limits over.
pub propagate : Settings → Server → Server
unfolding set_cursor_ttl set_cursor_capacity set_confirm_ttl
propagate settings s =
    set_confirm_ttl settings (set_cursor_capacity settings (set_cursor_ttl settings s))

pub persist : Bool → Settings → Server → Server × Result SetError Settings
unfolding save settings_get
persist writes settings s =
    let (s', saved) = save writes settings s in
    (s', (if saved then ok (settings_get s') else err not_persisted))

-- What follows the update.
abbrev pub finish :
    Bool → Server × Result SettingsError Settings → Server × Result SetError Settings
finish writes (s, err e) = (s, err (rejected e))
finish writes (s, ok settings) = persist writes settings (propagate settings s)

-- All the parts of a call, when no other call comes between them. The first argument says whether the file
-- can be written.
pub settings_set : Bool → Option (Dict String Raw) → Server → Server × Result SetError Settings
unfolding apply_update propagate persist
settings_set writes none s = (s, err no_updates)
settings_set writes (some updates) s = finish writes (apply_update updates s)
