-- ===== src/Container/Content.antt =====
-- `Container::submit_content` of src/container/container.cpp.
use scpefe.Base.{
  Bool, Bytes, Option, Outcome, false, fault, leb, length, none, not, ok, some, ◌%◌, ◌&&◌, ◌+◌,
  ◌==◌, ◌>>◌, ◌^◌, ◌||◌,
}
use scpefe.Cbor.Limits.{default_limits}
use scpefe.Container.Leases.{not_none, unless}
use scpefe.Container.Session.{
  Container, ContainerCandidate, Thrown, container_failure, invalid_argument, limit_exceeded,
  state_error,
}
use scpefe.Csv.{valid_csv_source}
use scpefe.State.Types.{invalid_transition, is_calm, is_editing, is_open, is_unlocked}
use scpefe.Text.{valid_canonical_document_text}

-- The candidate is an attempt of a host action, for which it holds an activity backup.
abbrev is_attempted : Option ContainerCandidate → Bool
is_attempted none = false
is_attempted (some k) = not_none k.activity_backup

abbrev may_submit : Container → Bool
may_submit c =
    not c.transitioning
    && is_open c.state.access
    && is_unlocked c.state.screen
    && is_editing c.state.edit
    && c.state.permissions.can_edit
    && is_calm c.state.attention
    && not (not_none c.pending_activity)
    && not (is_attempted c.candidate)

-- The rights to edit come with an unlocked slot; the source reads it without a test.
unfoldable pub submit_content : Container → Bytes → Outcome Thrown Container
submit_content c content = do
  unless (may_submit c) (state_error invalid_transition)
  unless (leb (length content) default_limits.max_text_bytes) (container_failure limit_exceeded)
  unless (valid_canonical_document_text content) (container_failure invalid_argument)
  elim c.unlocked [
    | none ↦ fault
    | some u ↦ do
      unless (not (u.content_type == 1) || valid_csv_source content)
          (container_failure invalid_argument)
      ok (record c {
        content_clear = some content;
        content_generation = (c.content_generation + 1) % 2 ^ 64;
      })
  ]
