-- ===== src/Tests/Written.antt =====
-- The writers of reports at a concrete input.
use ratatoskr_go.Base.{◌≡◌, refl, false, Text, bytes, any}
use ratatoskr_go.Report.Lines.{tsv_escape, replace_byte}
use ratatoskr_go.Report.Escapes.{tsv_unescape, is_break, tsv_unescape-tsv_escape}

abbrev message : Text
message = bytes "a\tb\\c"

tsv_unescape-tsv_escape_example :
    (tsv_unescape (tsv_escape message) ≡ message) × (any is_break (tsv_escape message) ≡ false)
tsv_unescape-tsv_escape_example = tsv_unescape-tsv_escape message

escape_run : tsv_escape message ≡ bytes "a\\tb\\\\c"
unfolding tsv_escape replace_byte
escape_run = refl
