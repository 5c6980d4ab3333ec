-- ===== src/Diagnose/Normalize.antt =====
-- NormalizeMessage of api/internal/runner/fingerprint.go. Each replacement by a regular expression is
-- a parameter. The cut counts code points, which are the bytes of ASCII text.
use alluredeck.Prelude.{Text, text_eq, [], take, if◌then◌else◌}

-- `ReplaceAllString` by each of the expressions, in the order of the file.
pub record Replacements : Type 0 where
  pub ip : Text → Text
  pub uuid : Text → Text
  pub iso8601 : Text → Text
  pub unix_ts : Text → Text
  pub hex : Text → Text
  pub abs_path : Text → Text
  pub long_digit : Text → Text

unfoldable pub normalize_message : Replacements → Text → Text
normalize_message r msg =
    if text_eq msg []
    then []
    else take 1000 (r.long_digit (r.abs_path (r.hex (r.unix_ts (r.iso8601 (r.uuid (r.ip msg)))))))
