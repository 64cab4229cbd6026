-- ===== src/Settings/Tests.antt =====
-- Runs of backend/internal/mcp/settings.go on small inputs.
use dbx_plugin_kafka.Base.{ℕ, ◌≡◌, refl, String, [], ◌∷◌, some, string_eq}
use dbx_plugin_kafka.Base.Int.{pos}
use dbx_plugin_kafka.Base.Dict.{Dict, lookup}
use dbx_plugin_kafka.Base.Result.{ok, err}
use dbx_plugin_kafka.Settings.{
  Settings, Field, Float64, int_of, Raw, number, field_name, out_of_range, default_settings,
  sanitized, settings_fields, set_field, load_settings, save_settings, update_field, update_fields,
  apply_settings_update,
}
use dbx_plugin_kafka.Settings.Range.{
  get_field, IsSanitized, sanitized-IsSanitized, default_settings-IsSanitized,
}
use dbx_plugin_kafka.Settings.Cut.{IsCut}
use dbx_plugin_kafka.Settings.Update.{requested, apply_settings_update_ok}
use dbx_plugin_kafka.Settings.Persist.{forgetful, load-save}

abbrev whole : ℕ → Float64
whole n = record { numerator = pos n; bits = 0 }

abbrev half : ℕ → Float64
half n = record { numerator = pos n; bits = 1 }

-- The second number is 3.5.
abbrev updates : Dict String Raw
updates = ("confirmTtlSecs", number (whole 300)) ∷ ("digestTopN", number (half 7)) ∷ []

abbrev updated : Settings
updated = record default_settings { confirm_ttl_secs = pos 300; digest_top_n = pos 3 }

accepted : apply_settings_update default_settings updates ≡ ok updated
unfolding apply_settings_update update_fields update_field int_of settings_fields set_field
    default_settings sanitized lookup
accepted = refl

zero_refused :
    apply_settings_update default_settings (("digestTopN", number (half 1)) ∷ [])
    ≡ err (out_of_range Field.digest_top_n)
unfolding apply_settings_update update_fields update_field int_of settings_fields set_field
    default_settings sanitized lookup
zero_refused = refl

apply_settings_update_ok_example :
    IsSanitized updated
    × ((g : Field) (x : Float64)
        → lookup (field_name g) updates ≡ some (number x)
        → IsCut x (get_field g updated))
    × ((g : Field) → get_field g updated ≡ requested g updates (get_field g default_settings))
apply_settings_update_ok_example =
    apply_settings_update_ok updates default_settings updated default_settings-IsSanitized accepted

abbrev long_lived : Settings
long_lived =
    sanitized (record default_settings { cursor_ttl_secs = pos 3600; max_cursor_sessions = pos 32 })

load-save_example : load_settings (some (save_settings long_lived)) ≡ forgetful long_lived
load-save_example = load-save long_lived (
    sanitized-IsSanitized
      (record default_settings { cursor_ttl_secs = pos 3600; max_cursor_sessions = pos 32 }))
