-- ===== src/History/Validation.antt =====
-- `validate_graph` of src/format/revision_graph.cpp. `hash` stands for `blake2b_256`.
use scpefe.Base.{Bytes, List, Outcome, [], none, not, ok, require_or, ◌>>=◌, ◌>>◌}
use scpefe.Cbor.Limits.{RevisionError, RevisionLimits, malformed_cbor}
use scpefe.Graph.Parsing.{has}
use scpefe.Graph.Records.{RevisionId, RevisionRecord}
use scpefe.History.Bodies.{check_bodies, flagged}
use scpefe.History.Compactions.{check_events, is_compacted}
use scpefe.History.Line.{all_foreign_fit, check_line, ends_at, is_last, no_line}
use scpefe.History.Merges.{check_merges}

unfoldable pub validate_graph :
    (Bytes → Bytes)
    → RevisionLimits
    → List RevisionRecord
    → RevisionId
    → RevisionId
    → Outcome RevisionError (List RevisionRecord)
validate_graph hash limits records newest text_head = do
  require_or malformed_cbor (not (is_last records))
  line ← check_line [] no_line records
  require_or malformed_cbor (ends_at line newest text_head)
  require_or malformed_cbor (all_foreign_fit records records)
  check_merges records records
  flagged ← check_bodies hash limits none records
  require_or malformed_cbor (has flagged.1)
  latest ← check_events records none 0 records
  require_or malformed_cbor (is_compacted records latest)
  ok flagged.0
