-- ===== src/Examples/Leases.antt =====
-- Lease decisions of src/container/container.cpp, and a table of src/format/csv_source.hpp.
use mathlib.Core.Bool.{xor}
use scpefe.Base.{
  List, [], arith, bytes_eq, err, false, none, ok, refl, some, true, ℕ, ◌<◌, ◌^◌, ◌∷◌, ◌≡◌, ◌≤◌,
  ◌⊎◌,
}
use scpefe.Cbor.Items.{ReadsBack}
use scpefe.Cbor.Limits.{default_limits}
use scpefe.Container.Leases.{
  LeaseAction, LeaseChange, LeaseEntry, advise_lease_entry, allowed, as_expected, expired,
  is_session, may_change_lease, next_lease,
}
use scpefe.Container.Session.{Container, EditingLeaseData, UnlockedContainerData, state_error}
use scpefe.Container.Takeover.{
  IsTyped, confirmed_takeover_refused, next_lease_respects_holder, offered_takeover_allowed,
  parse_lease-next_lease, stored,
}
use scpefe.Csv.{valid_csv_source}
use scpefe.Csv.Tables.{Row, as_is, in_quotes, render, valid_csv_source-render}
use scpefe.Graph.Slots.{parse_lease}
use scpefe.History.Encoding.{put_lease}
use scpefe.State.Types.{
  ContainerState, SlotId, initial_state, invalid_transition, open_envelope, unlocked,
}
use scpefe.Text.{valid_utf8}

abbrev lease : EditingLeaseData
lease = record {
  session_id = 9 ∷ [];
  heartbeat_counter = 4;
  holder_utc_ms = 1000;
  duration_ms = 500;
  holder_name = 0x61 ∷ [];
  holder_email = 0x62 ∷ [];
  device_name = 0x63 ∷ [];
  active = true;
}

-- An ordinary slot that may edit.
abbrev ordinary : UnlockedContainerData
ordinary = record {
  document_id = 5 ∷ [];
  slot_id = 7 ∷ [];
  permissions = 1;
  recovery_slot = false;
  owner_slot = false;
  must_be_changed = false;
  content_type = 0;
  editing_lease = lease;
  graph_head = 1 ∷ [];
}

abbrev reader_state : ContainerState
reader_state = record initial_state {
  access = open_envelope;
  screen = unlocked;
  active_slot = some (7 ∷ []);
  permissions = record { can_edit = true; can_add_passwords = false; can_remove_passwords = false };
}

abbrev reading : Container
reading = record {
  committed_bytes = 1 ∷ [];
  target_bytes = [];
  document_id = some (5 ∷ []);
  unlocked = some ordinary;
  content_clear = some [];
  content_generation = 0;
  candidate = none;
  pending_activity = none;
  state = reader_state;
  transitioning = false;
  local_lease_session = none;
}

abbrev taker : SlotId
taker = 8 ∷ 8 ∷ 8 ∷ 8 ∷ 8 ∷ 8 ∷ 8 ∷ 8 ∷ 8 ∷ 8 ∷ 8 ∷ 8 ∷ 8 ∷ 8 ∷ 8 ∷ 8 ∷ []

abbrev takes : ℕ → LeaseChange
takes now = record {
  action = LeaseAction.takeover;
  session_id = taker;
  expected_active = true;
  expected_session_id = 9 ∷ [];
  expected_counter = 4;
  expected_holder_utc_ms = 1000;
  expected_duration_ms = 500;
  now_utc_ms = now;
  unchanged_monotonic_ms = 0;
  duration_ms = 600;
  holder_name = 0x64 ∷ [];
  holder_email = 0x65 ∷ [];
  device_name = 0x66 ∷ [];
  explicit_takeover = true;
}

abbrev taken : EditingLeaseData
taken = record {
  session_id = taker;
  heartbeat_counter = 1;
  holder_utc_ms = 1500;
  duration_ms = 600;
  holder_name = 0x64 ∷ [];
  holder_email = 0x65 ∷ [];
  device_name = 0x66 ∷ [];
  active = true;
}

may_take : may_change_lease reading 1 (takes 1500) (0x70 ∷ []) ≡ ok tt
unfolding may_change_lease bytes_eq
may_take = refl

takes_expired : next_lease reading ordinary (takes 1500) ≡ ok taken
unfolding next_lease bytes_eq xor
takes_expired = refl

takes-IsTyped : IsTyped (takes 1500)
unfolding valid_utf8
takes-IsTyped = record {
  session = refl;
  name = (omega arith, refl);
  email = (omega arith, refl);
  device = (omega arith, refl);
}

parse_lease-next_lease_example :
    ReadsBack (parse_lease default_limits) (put_lease (stored taken) []) (stored taken)
    × (taken.heartbeat_counter < 2 ^ 64)
    × (taken.heartbeat_counter ≡ 1)
unfolding bytes_eq
parse_lease-next_lease_example =
    parse_lease-next_lease reading ordinary ordinary 1 (takes 1500) (0x70 ∷ []) refl may_take
      takes-IsTyped (omega arith) takes_expired

next_lease_respects_holder_example :
    ((lease.session_id ≡ (takes 1500).session_id)
      × (is_session reading.local_lease_session (takes 1500).session_id ≡ true))
    ⊎ (((takes 1500).explicit_takeover ≡ true)
        × ((expired lease 1500 ≡ true)
            ⊎ ((lease.duration_ms ≤ 0)
                ⊎ ((ordinary.owner_slot ≡ true) ⊎ (ordinary.recovery_slot ≡ true)))))
next_lease_respects_holder_example =
    next_lease_respects_holder reading ordinary (takes 1500) refl takes_expired

offers : advise_lease_entry reading [] 0 1500 0 ≡ ok LeaseEntry.takeover
unfolding advise_lease_entry
offers = refl

other_session : bytes_eq (9 ∷ []) taker ≡ false
unfolding bytes_eq
other_session = refl

offered_takeover_allowed_example : allowed ordinary (takes 1500) false false false ≡ true
offered_takeover_allowed_example =
    offered_takeover_allowed reading ordinary [] 0 1500 0 (takes 1500) false false refl offers
      (refl, refl, refl, refl, other_session)

-- The holder's clock reads 1000 and ours 900.
offers_confirmed : advise_lease_entry reading [] 0 900 0 ≡ ok LeaseEntry.confirm_takeover
unfolding advise_lease_entry
offers_confirmed = refl

expected : as_expected lease (takes 900) ≡ true
unfolding bytes_eq xor
expected = refl

confirmed_takeover_refused_example :
    next_lease reading ordinary (takes 900) ≡ err (state_error invalid_transition)
confirmed_takeover_refused_example =
    confirmed_takeover_refused reading ordinary [] 0 900 0 (takes 900) refl offers_confirmed refl
      refl (refl, refl, refl, refl, other_session) expected

-- Two columns, a quoted cell with a comma and a quote in it, and a row that is too short.
abbrev heading : Row
heading = (as_is (0x61 ∷ []), as_is (0x62 ∷ []) ∷ [])

abbrev table : List Row
table = (in_quotes (0x2c ∷ 0x22 ∷ []), as_is [] ∷ []) ∷ (as_is (0x63 ∷ []), []) ∷ []

valid_csv_source-render_example : valid_csv_source (render (heading ∷ table)) ≡ false
valid_csv_source-render_example = valid_csv_source-render heading table (ground arith)
