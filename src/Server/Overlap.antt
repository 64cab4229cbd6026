-- ===== src/Server/Overlap.antt =====
-- Calls of `SettingsSet` of backend/internal/mcp/server.go that overlap: the turns of their locks in any order.
use dbx_plugin_kafka.Base.{◌*◌, ◌≡◌, refl, ap, ◌∙◌, String, List, [], ◌∷◌, string_eq, arith}
use dbx_plugin_kafka.Base.Int.{pos_part}
use dbx_plugin_kafka.Base.Dict.{Dict}
use dbx_plugin_kafka.Base.Result.{ok}
use dbx_plugin_kafka.Confirm
use dbx_plugin_kafka.Settings.{Settings, Field, Raw, apply_settings_update}
use dbx_plugin_kafka.Settings.Range.{IsSanitized, get_field}
use dbx_plugin_kafka.Settings.Update.{apply_settings_update_ok}
use dbx_plugin_kafka.Server.{
  Server, apply_update, set_cursor_ttl, set_cursor_capacity, set_confirm_ttl,
}

-- A turn of a lock, with what the call has at that moment.
pub data Turn : Type 0 where
  applies : Dict String Raw → Turn
  sets_cursor_ttl sets_cursor_capacity sets_confirm_ttl : Settings → Turn

pub turn : Turn → Server → Server
turn (applies updates) s = (apply_update updates s).0
turn (sets_cursor_ttl settings) s = set_cursor_ttl settings s
turn (sets_cursor_capacity settings) s = set_cursor_capacity settings s
turn (sets_confirm_ttl settings) s = set_confirm_ttl settings s

pub turns : List Turn → Server → Server
unfolding turn
turns [] s = s
turns (t ∷ ts) s = turns ts (turn t s)

applied_lem :
    (updates : Dict String Raw) (s : Server) (settings : Settings)
    → apply_settings_update s.settings updates ≡ ok settings
    → (apply_update updates s).0 ≡ record s { settings = settings }
unfolding apply_update
applied_lem updates s settings h = rw (h, apply_update) refl

-- When a second accepted call comes between the update and the limits of a first one, the server has the
-- settings of the second call, and its tokens the life that the first one set.
pub turns_overlap :
    (first second : Dict String Raw) (s : Server) (a b : Settings)
    → IsSanitized s.settings
    → apply_settings_update s.settings first ≡ ok a
    → apply_settings_update a second ≡ ok b
    → (let t =
          turns (applies first ∷ applies second ∷ sets_confirm_ttl b ∷ sets_confirm_ttl a ∷ []) s in
        (t.settings ≡ b) × (t.confirms.ttl ≡ pos_part a.confirm_ttl_secs * 1000000000))
unfolding turns turn set_confirm_ttl Confirm.set_ttl get_field
turns_overlap first second s a b h accepted later =
    let in_range = (apply_settings_update_ok first s.settings a h accepted).0 in
    let one = applied_lem first s a accepted in
    let two = applied_lem second (record s { settings = a }) b later in
    let both : (apply_update second (apply_update first s).0).0 ≡ record s { settings = b } =
      ap (λ u. (apply_update second u).0) one ∙ two in
    (ap (λ u. u.settings) both, ground (arith, in_range Field.confirm_ttl_secs))
