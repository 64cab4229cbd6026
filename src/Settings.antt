-- ===== src/Settings.antt =====
-- backend/internal/mcp/settings.go: the adjustable limits of the MCP tools. The eleven field names are
-- constructors, and an `int` is an integer: the values are compared and copied only. A number of a request is a
-- `float64`, and becomes an `int` as Go does it.
pub mod Range
pub mod Cut
pub mod Update
pub mod Persist
mod Tests
use dbx_plugin_kafka.Base.{
  ℕ, zero, suc, ◌*◌, ◌-◌, ◌/◌, ◌^◌, String, Bool, true, false, not, ◌||◌, Option, none, some, List,
  [], ◌∷◌, if◌then◌else◌, ltb, string_eq,
}
use dbx_plugin_kafka.Base.Int.{ℤ, pos, negsuc, pos_part, is_positive, ltb_ℤ}
use dbx_plugin_kafka.Base.Dict.{Dict, lookup}
use dbx_plugin_kafka.Base.Result.{Result, ok, err, ◌>>=◌}

pub record Settings : Type 0 where
  pub report_wait_ms : ℤ
  pub cell_width : ℤ
  pub digest_group_limit : ℤ
  pub digest_top_n : ℤ
  pub digest_sample_rows : ℤ
  pub digest_row_limit : ℤ
  pub digest_scan_limit : ℤ
  pub cursor_ttl_secs : ℤ
  pub max_cursor_sessions : ℤ
  pub confirm_ttl_secs : ℤ
  pub response_limit_bytes : ℤ

pub default_settings : Settings
default_settings = record {
  report_wait_ms = pos 5000;
  cell_width = pos 120;
  digest_group_limit = pos 20;
  digest_top_n = pos 10;
  digest_sample_rows = pos 5;
  digest_row_limit = pos 20;
  digest_scan_limit = pos 1000;
  cursor_ttl_secs = pos 600;
  max_cursor_sessions = pos 8;
  confirm_ttl_secs = pos 60;
  response_limit_bytes = pos 16384;
}

-- The names of the fields in `mcp/settings/set`.
pub data Field : Type 0 where
  report_wait_ms cell_width digest_group_limit digest_top_n digest_sample_rows digest_row_limit :
      Field
  digest_scan_limit cursor_ttl_secs max_cursor_sessions confirm_ttl_secs response_limit_bytes :
      Field

abbrev pub field_name : Field → String
field_name Field.report_wait_ms = "reportWaitMs"
field_name Field.cell_width = "cellWidth"
field_name Field.digest_group_limit = "digestGroupLimit"
field_name Field.digest_top_n = "digestTopN"
field_name Field.digest_sample_rows = "digestSampleRows"
field_name Field.digest_row_limit = "digestRowLimit"
field_name Field.digest_scan_limit = "digestScanLimit"
field_name Field.cursor_ttl_secs = "cursorTtlSecs"
field_name Field.max_cursor_sessions = "maxCursorSessions"
field_name Field.confirm_ttl_secs = "confirmTtlSecs"
field_name Field.response_limit_bytes = "responseLimitBytes"

pub record SettingsField : Type 0 where
  pub field : Field
  pub ceiling : ℕ
  pub min : ℕ

pub settings_fields : List SettingsField
settings_fields =
    entry Field.report_wait_ms 30000 1
    ∷ entry Field.cell_width 2000 1
    ∷ entry Field.digest_group_limit 20 1
    ∷ entry Field.digest_top_n 10 1
    ∷ entry Field.digest_sample_rows 5 1
    ∷ entry Field.digest_row_limit 20 1
    ∷ entry Field.digest_scan_limit 100000 1
    ∷ entry Field.cursor_ttl_secs 3600 10
    ∷ entry Field.max_cursor_sessions 32 1
    ∷ entry Field.confirm_ttl_secs 600 10
    ∷ entry Field.response_limit_bytes (1024 * 1024) 1
    ∷ []
  where
    entry : Field → ℕ → ℕ → SettingsField
    entry f ceiling min = record { field = f; ceiling = ceiling; min = min }

abbrev pub clamp : ℤ → ℕ → ℤ
clamp value ceiling =
    if ltb_ℤ value (pos 1) then pos 1 else if ltb_ℤ (pos ceiling) value then pos ceiling else value

abbrev pub at_least : ℕ → ℤ → ℤ
at_least least value = if ltb_ℤ value (pos least) then pos least else value

pub sanitized : Settings → Settings
sanitized s = record {
  report_wait_ms = clamp s.report_wait_ms 30000;
  cell_width = clamp s.cell_width 2000;
  digest_group_limit = clamp s.digest_group_limit 20;
  digest_top_n = clamp s.digest_top_n 10;
  digest_sample_rows = clamp s.digest_sample_rows 5;
  digest_row_limit = clamp s.digest_row_limit 20;
  digest_scan_limit = clamp s.digest_scan_limit 100000;
  cursor_ttl_secs = at_least 10 (clamp s.cursor_ttl_secs 3600);
  max_cursor_sessions = clamp s.max_cursor_sessions 32;
  confirm_ttl_secs = at_least 10 (clamp s.confirm_ttl_secs 600);
  response_limit_bytes = clamp s.response_limit_bytes (1024 * 1024);
}

abbrev or_default : ℤ → ℤ → ℤ
or_default persisted fallback = if is_positive persisted then persisted else fallback

-- What `LoadJSON` read, field by field; a field that the file lacks is 0 there.
merge_persisted : Settings → Settings → Settings
merge_persisted persisted settings = record settings {
  report_wait_ms = or_default persisted.report_wait_ms settings.report_wait_ms;
  cell_width = or_default persisted.cell_width settings.cell_width;
  digest_group_limit = or_default persisted.digest_group_limit settings.digest_group_limit;
  digest_top_n = or_default persisted.digest_top_n settings.digest_top_n;
  digest_sample_rows = or_default persisted.digest_sample_rows settings.digest_sample_rows;
  digest_row_limit = or_default persisted.digest_row_limit settings.digest_row_limit;
  digest_scan_limit = or_default persisted.digest_scan_limit settings.digest_scan_limit;
  response_limit_bytes = or_default persisted.response_limit_bytes settings.response_limit_bytes;
  confirm_ttl_secs = or_default persisted.confirm_ttl_secs settings.confirm_ttl_secs;
}

-- `none` is a data directory, a file or a parse that failed.
pub load_settings : Option Settings → Settings
unfolding merge_persisted default_settings sanitized
load_settings none = default_settings
load_settings (some persisted) = sanitized (merge_persisted persisted default_settings)

-- What `SaveSettings` hands to the file.
pub save_settings : Settings → Settings
save_settings settings = sanitized settings

-- A finite `float64`: the numerator over a power of two.
pub record Float64 : Type 0 where
  pub numerator : ℤ
  pub bits : ℕ

-- A value of an `int`; one that does not fit is the least of them, as on amd64.
abbrev in_int64 : ℤ → ℤ
in_int64 (pos n) = if ltb n (2 ^ 63) then pos n else negsuc (2 ^ 63 - 1)
in_int64 (negsuc n) = if ltb n (2 ^ 63) then negsuc n else negsuc (2 ^ 63 - 1)

abbrev negated : ℕ → ℤ
negated zero = pos 0
negated (suc n) = negsuc n

-- `int(number)`, without what stands behind the point.
unfoldable pub int_of : Float64 → ℤ
int_of x = elim x.numerator [
  | pos n ↦ in_int64 (pos (n / 2 ^ x.bits))
  | negsuc n ↦ in_int64 (negated (suc n / 2 ^ x.bits))
]

-- A value of a JSON object: a number or anything else.
pub data Raw : Type 0 where
  number : Float64 → Raw
  other : Raw

pub data SettingsError : Type 0 where
  not_a_number : Field → SettingsError
  out_of_range : Field → SettingsError

-- The `switch` on the field's name.
pub set_field : Field → ℤ → Settings → Settings
set_field Field.report_wait_ms v s = record s { report_wait_ms = v }
set_field Field.cell_width v s = record s { cell_width = v }
set_field Field.digest_group_limit v s = record s { digest_group_limit = v }
set_field Field.digest_top_n v s = record s { digest_top_n = v }
set_field Field.digest_sample_rows v s = record s { digest_sample_rows = v }
set_field Field.digest_row_limit v s = record s { digest_row_limit = v }
set_field Field.digest_scan_limit v s = record s { digest_scan_limit = v }
set_field Field.cursor_ttl_secs v s = record s { cursor_ttl_secs = v }
set_field Field.max_cursor_sessions v s = record s { max_cursor_sessions = v }
set_field Field.confirm_ttl_secs v s = record s { confirm_ttl_secs = v }
set_field Field.response_limit_bytes v s = record s { response_limit_bytes = v }

abbrev pub in_range : SettingsField → ℤ → Bool
in_range f value = not (ltb_ℤ value (pos f.min) || ltb_ℤ (pos f.ceiling) value)

-- One turn of the loop over the field table.
pub update_field : SettingsField → Option Raw → Settings → Result SettingsError Settings
update_field f none s = ok s
update_field f (some other) s = err (not_a_number f.field)
update_field f (some (number x)) s =
    let value = int_of x in
    if in_range f value then ok (set_field f.field value s) else err (out_of_range f.field)

pub update_fields : List SettingsField → Dict String Raw → Settings → Result SettingsError Settings
update_fields [] updates s = ok s
update_fields (f ∷ fs) updates s =
    update_field f (lookup (field_name f.field) updates) s >>= λ s'. update_fields fs updates s'

pub apply_settings_update : Settings → Dict String Raw → Result SettingsError Settings
apply_settings_update s updates =
    update_fields settings_fields updates s >>= λ s'. ok (sanitized s')
