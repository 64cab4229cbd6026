-- ===== src/Settings/Persist.antt =====
-- Settings over a restart: what `SaveSettings` writes and `LoadSettings` reads back.
use dbx_plugin_kafka.Base.{◌<◌, ◌≡◌, ap, ◌∙◌, Option, none, some, if◌then◌else◌, lt→ltb, arith}
use dbx_plugin_kafka.Base.Int.{ℤ, pos, pos_part, is_positive}
use dbx_plugin_kafka.Settings.{
  Settings, Field, default_settings, merge_persisted, sanitized, load_settings, save_settings,
}
use dbx_plugin_kafka.Settings.Range.{
  get_field, Within, IsSanitized, sanitized-IsSanitized, sanitized_fixed,
  default_settings-IsSanitized,
}

-- Whatever the file holds, the settings that are loaded are in range.
pub load_settings-IsSanitized :
    (persisted : Option Settings) → IsSanitized (load_settings persisted)
unfolding load_settings
load_settings-IsSanitized none = default_settings-IsSanitized
load_settings-IsSanitized (some persisted) =
    sanitized-IsSanitized (merge_persisted persisted default_settings)

or_default_positive : (v d : ℤ) → 0 < pos_part v → (if is_positive v then v else d) ≡ v
or_default_positive v d h = rw (lt→ltb 0 (pos_part v) h)

positive : (g : Field) (v : ℤ) → Within g v → 0 < pos_part v
positive Field.report_wait_ms v h = omega arith
positive _ v h = omega arith

-- The two fields that `LoadSettings` never reads.
abbrev pub forgetful : Settings → Settings
forgetful s = record s { cursor_ttl_secs = pos 600; max_cursor_sessions = pos 8 }

merge_persisted_lem :
    (s : Settings) → IsSanitized s → merge_persisted s default_settings ≡ forgetful s
unfolding merge_persisted default_settings get_field
merge_persisted_lem s h = λ i. record {
  report_wait_ms =
      or_default_positive s.report_wait_ms (pos 5000)
        (positive Field.report_wait_ms s.report_wait_ms (h Field.report_wait_ms)) i;
  cell_width =
      or_default_positive s.cell_width (pos 120)
        (positive Field.cell_width s.cell_width (h Field.cell_width)) i;
  digest_group_limit =
      or_default_positive s.digest_group_limit (pos 20)
        (positive Field.digest_group_limit s.digest_group_limit (h Field.digest_group_limit)) i;
  digest_top_n =
      or_default_positive s.digest_top_n (pos 10)
        (positive Field.digest_top_n s.digest_top_n (h Field.digest_top_n)) i;
  digest_sample_rows =
      or_default_positive s.digest_sample_rows (pos 5)
        (positive Field.digest_sample_rows s.digest_sample_rows (h Field.digest_sample_rows)) i;
  digest_row_limit =
      or_default_positive s.digest_row_limit (pos 20)
        (positive Field.digest_row_limit s.digest_row_limit (h Field.digest_row_limit)) i;
  digest_scan_limit =
      or_default_positive s.digest_scan_limit (pos 1000)
        (positive Field.digest_scan_limit s.digest_scan_limit (h Field.digest_scan_limit)) i;
  cursor_ttl_secs = pos 600;
  max_cursor_sessions = pos 8;
  confirm_ttl_secs =
      or_default_positive s.confirm_ttl_secs (pos 60)
        (positive Field.confirm_ttl_secs s.confirm_ttl_secs (h Field.confirm_ttl_secs)) i;
  response_limit_bytes =
      or_default_positive s.response_limit_bytes (pos 16384)
        (positive Field.response_limit_bytes s.response_limit_bytes (h Field.response_limit_bytes))
        i;
}

forgetful-IsSanitized : (s : Settings) → IsSanitized s → IsSanitized (forgetful s)
unfolding get_field
forgetful-IsSanitized s h Field.cursor_ttl_secs = omega arith
forgetful-IsSanitized s h Field.max_cursor_sessions = omega arith
forgetful-IsSanitized s h Field.report_wait_ms = h Field.report_wait_ms
forgetful-IsSanitized s h Field.cell_width = h Field.cell_width
forgetful-IsSanitized s h Field.digest_group_limit = h Field.digest_group_limit
forgetful-IsSanitized s h Field.digest_top_n = h Field.digest_top_n
forgetful-IsSanitized s h Field.digest_sample_rows = h Field.digest_sample_rows
forgetful-IsSanitized s h Field.digest_row_limit = h Field.digest_row_limit
forgetful-IsSanitized s h Field.digest_scan_limit = h Field.digest_scan_limit
forgetful-IsSanitized s h Field.confirm_ttl_secs = h Field.confirm_ttl_secs
forgetful-IsSanitized s h Field.response_limit_bytes = h Field.response_limit_bytes

-- Settings in range come back from the file as they were, but for the time to live of a cursor and the
-- number of cursor sessions: these two are back at 600 seconds and 8, whatever was saved.
pub load-save :
    (s : Settings) → IsSanitized s → load_settings (some (save_settings s)) ≡ forgetful s
unfolding load_settings save_settings
load-save s h =
    ap (λ t. sanitized (merge_persisted t default_settings)) (sanitized_fixed s h)
    ∙ ap sanitized (merge_persisted_lem s h)
    ∙ sanitized_fixed (forgetful s) (forgetful-IsSanitized s h)
