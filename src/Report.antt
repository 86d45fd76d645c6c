-- ===== src/Report.antt =====
-- pkg/report: the formats of a report, and in Lines the writers that give one line or block per finding.
pub mod Lines
pub mod Escapes
use ratatoskr_go.Base.{Option, none, some, List, [], ◌∷◌, Text, bytes, member, if◌then◌else◌}

abbrev pub Format : Type 0
Format = Text

abbrev pub formats : List Format
formats =
    bytes "json"
    ∷ bytes "ndjson"
    ∷ bytes "text"
    ∷ bytes "github-actions"
    ∷ bytes "junit"
    ∷ bytes "sarif"
    ∷ bytes "tsv"
    ∷ []

-- none is the error of an unknown format.
unfoldable pub parse_format : Text → Option Format
parse_format s = if member s formats then some s else none
