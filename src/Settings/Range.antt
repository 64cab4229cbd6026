-- ===== src/Settings/Range.antt =====
-- The range of each setting, and that `Sanitized` and the table of `mcp/settings/set` agree on it.
use dbx_plugin_kafka.Base.{ℕ, ◌*◌, ◌≤◌, ◌≡◌, ◌≢◌, refl, All, arith}
use dbx_plugin_kafka.Base.Int.{ℤ, pos_part}
use dbx_plugin_kafka.Settings.{
  Settings, Field, SettingsField, default_settings, settings_fields, clamp, at_least, sanitized,
  set_field,
}

unfoldable pub get_field : Field → Settings → ℤ
get_field Field.report_wait_ms s = s.report_wait_ms
get_field Field.cell_width s = s.cell_width
get_field Field.digest_group_limit s = s.digest_group_limit
get_field Field.digest_top_n s = s.digest_top_n
get_field Field.digest_sample_rows s = s.digest_sample_rows
get_field Field.digest_row_limit s = s.digest_row_limit
get_field Field.digest_scan_limit s = s.digest_scan_limit
get_field Field.cursor_ttl_secs s = s.cursor_ttl_secs
get_field Field.max_cursor_sessions s = s.max_cursor_sessions
get_field Field.confirm_ttl_secs s = s.confirm_ttl_secs
get_field Field.response_limit_bytes s = s.response_limit_bytes

-- The documented limits: the time limits of cursors and tokens start at 10 seconds.
abbrev pub least : Field → ℕ
least Field.cursor_ttl_secs = 10
least Field.confirm_ttl_secs = 10
least _ = 1

abbrev pub greatest : Field → ℕ
greatest Field.report_wait_ms = 30000
greatest Field.cell_width = 2000
greatest Field.digest_group_limit = 20
greatest Field.digest_top_n = 10
greatest Field.digest_sample_rows = 5
greatest Field.digest_row_limit = 20
greatest Field.digest_scan_limit = 100000
greatest Field.cursor_ttl_secs = 3600
greatest Field.max_cursor_sessions = 32
greatest Field.confirm_ttl_secs = 600
greatest Field.response_limit_bytes = 1024 * 1024

abbrev pub Within : Field → ℤ → Type 0
Within g v = (least g ≤ pos_part v) × (pos_part v ≤ greatest g)

abbrev pub IsSanitized : Settings → Type 0
IsSanitized s = (g : Field) → Within g (get_field g s)

-- `Sanitized` brings every field into its range.
pub sanitized-IsSanitized : (s : Settings) → IsSanitized (sanitized s)
unfolding sanitized get_field
sanitized-IsSanitized s Field.report_wait_ms = ground arith
sanitized-IsSanitized s _ = ground arith

clamp_fixed : (v : ℤ) (c : ℕ) → 1 ≤ pos_part v → pos_part v ≤ c → clamp v c ≡ v
clamp_fixed v c low high = ground arith

timed_fixed : (v : ℤ) (c : ℕ) → 10 ≤ pos_part v → pos_part v ≤ c → at_least 10 (clamp v c) ≡ v
timed_fixed v c low high = rw (clamp_fixed v c (omega arith) high) (ground arith)

-- Settings that are in range are left as they are.
pub sanitized_fixed : (s : Settings) → IsSanitized s → sanitized s ≡ s
unfolding sanitized get_field
sanitized_fixed s h = λ i. record {
  report_wait_ms =
      clamp_fixed s.report_wait_ms 30000 (h Field.report_wait_ms).0 (h Field.report_wait_ms).1 i;
  cell_width = clamp_fixed s.cell_width 2000 (h Field.cell_width).0 (h Field.cell_width).1 i;
  digest_group_limit =
      clamp_fixed s.digest_group_limit 20 (h Field.digest_group_limit).0
        (h Field.digest_group_limit).1 i;
  digest_top_n = clamp_fixed s.digest_top_n 10 (h Field.digest_top_n).0 (h Field.digest_top_n).1 i;
  digest_sample_rows =
      clamp_fixed s.digest_sample_rows 5 (h Field.digest_sample_rows).0
        (h Field.digest_sample_rows).1 i;
  digest_row_limit =
      clamp_fixed s.digest_row_limit 20 (h Field.digest_row_limit).0 (h Field.digest_row_limit).1 i;
  digest_scan_limit =
      clamp_fixed s.digest_scan_limit 100000 (h Field.digest_scan_limit).0
        (h Field.digest_scan_limit).1 i;
  cursor_ttl_secs =
      timed_fixed s.cursor_ttl_secs 3600 (h Field.cursor_ttl_secs).0 (h Field.cursor_ttl_secs).1 i;
  max_cursor_sessions =
      clamp_fixed s.max_cursor_sessions 32 (h Field.max_cursor_sessions).0
        (h Field.max_cursor_sessions).1 i;
  confirm_ttl_secs =
      timed_fixed s.confirm_ttl_secs 600 (h Field.confirm_ttl_secs).0 (h Field.confirm_ttl_secs).1
        i;
  response_limit_bytes =
      clamp_fixed s.response_limit_bytes (1024 * 1024) (h Field.response_limit_bytes).0
        (h Field.response_limit_bytes).1 i;
}

pub default_settings-IsSanitized : IsSanitized default_settings
unfolding default_settings get_field
default_settings-IsSanitized Field.report_wait_ms = omega arith
default_settings-IsSanitized _ = omega arith

-- The table has the limits that `Sanitized` has.
abbrev pub Agrees : SettingsField → Type 0
Agrees f = (f.min ≡ least f.field) × (f.ceiling ≡ greatest f.field)

pub settings_fields-Agrees : All Agrees settings_fields
unfolding settings_fields
settings_fields-Agrees = omega arith

pub Field-discrete : Discrete Field
Field-discrete = hlevel

pub get_field-set_field : (f : Field) (v : ℤ) (s : Settings) → get_field f (set_field f v s) ≡ v
unfolding get_field set_field
get_field-set_field Field.report_wait_ms v s = refl
get_field-set_field _ v s = refl

pub get_field-set_field_ne :
    (f g : Field) (v : ℤ) (s : Settings) → f ≢ g → get_field g (set_field f v s) ≡ get_field g s
unfolding get_field set_field
get_field-set_field_ne f g v s h = ground arith
