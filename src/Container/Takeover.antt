-- ===== src/Container/Takeover.antt =====
-- What the lease decisions of src/container/container.cpp guarantee, and what
-- src/format/revision_graph.cpp asks of a stored lease.
use scpefe.Base.{
  Bool, Bytes, [], arith, bytes_eq, bytes_eq_refl, bytes_eq→eq, err, false, if◌then◌else◌, inl, inr,
  length, ok, refl, some, true, ℕ, ◌&&◌, ◌+◌, ◌-◌, ◌<◌, ◌==◌, ◌^◌, ◌≡◌, ◌≤◌, ◌⊎◌,
}
use scpefe.Cbor.Items.{ReadsBack}
use scpefe.Cbor.Limits.{default_limits}
use scpefe.Container.Leases.{
  LeaseAction, LeaseChange, LeaseEntry, advise_lease_entry, allowed, as_expected, expired,
  is_session, may_change_lease, next_lease, zero_id,
}
use scpefe.Container.Session.{Container, EditingLeaseData, UnlockedContainerData, state_error}
use scpefe.Graph.Records.{RevisionLease}
use scpefe.Graph.Slots.{lease_fits, parse_lease}
use scpefe.History.Encoding.{put_lease}
use scpefe.History.LeaseRoundTrip.{IsEncodable, IsWritable, parse_lease-put_lease}
use scpefe.State.Types.{SlotId, invalid_transition}
use scpefe.Text.{valid_utf8}

-- The lease as `prepare_lease_change` hands it to `RevisionGraph::replace_lease`.
abbrev pub stored : EditingLeaseData → RevisionLease
stored l = record {
  session_id = l.session_id;
  heartbeat_counter = l.heartbeat_counter;
  holder_utc_ms = l.holder_utc_ms;
  duration_ms = l.duration_ms;
  holder_name = l.holder_name;
  holder_email = l.holder_email;
  device = l.device_name;
  active = l.active;
}

-- The checks before the authentication that are about the lease.
may_change_lease-duration :
    (c : Container) (u : UnlockedContainerData) (id : ℕ) (change : LeaseChange) (password : Bytes)
    → c.unlocked ≡ some u
    → may_change_lease c id change password ≡ ok tt
    → (bytes_eq change.session_id zero_id ≡ false)
      × ((change.duration_ms == 0) ≡ false)
      × (change.duration_ms ≤ 2 ^ 63 - 1)
unfolding may_change_lease
may_change_lease-duration c u id change password hu hm = ground arith

-- The lease of a change fits the decoder's rules.
next_lease-fits :
    (c : Container) (image : UnlockedContainerData) (change : LeaseChange) {next : EditingLeaseData}
    → bytes_eq change.session_id zero_id ≡ false
    → (change.duration_ms == 0) ≡ false
    → change.duration_ms ≤ 2 ^ 63 - 1
    → next_lease c image change ≡ ok next
    → lease_fits (stored next) ≡ true
unfolding next_lease lease_fits
next_lease-fits c image change hs hz hd e = ground (arith, bytes_eq_refl zero_id)

next_lease-counter :
    (c : Container) (image : UnlockedContainerData) (change : LeaseChange) {next : EditingLeaseData}
    → image.editing_lease.heartbeat_counter < 2 ^ 64
    → next_lease c image change ≡ ok next
    → (next.heartbeat_counter < 2 ^ 64)
      × (next.holder_utc_ms ≤ 2 ^ 63 - 1)
      × (next.heartbeat_counter ≡ (
          if image.editing_lease.active && bytes_eq image.editing_lease.session_id change.session_id
          then image.editing_lease.heartbeat_counter + 1
          else 1))
unfolding next_lease
next_lease-counter c image change h64 e = ground arith

-- Its session and its names are those of the change, or none after a release.
next_lease-holder :
    (c : Container) (image : UnlockedContainerData) (change : LeaseChange) {next : EditingLeaseData}
    → next_lease c image change ≡ ok next
    → ((next.session_id ≡ change.session_id) ⊎ (next.session_id ≡ zero_id))
      × ((next.holder_name ≡ change.holder_name) ⊎ (next.holder_name ≡ []))
      × ((next.holder_email ≡ change.holder_email) ⊎ (next.holder_email ≡ []))
      × ((next.device_name ≡ change.device_name) ⊎ (next.device_name ≡ []))
unfolding next_lease
next_lease-holder c image change e = ground arith

-- The types of a change's fields: an id of 16 bytes, and names that are text within the limit.
pub record IsTyped (change : LeaseChange) : Type 0 where
  pub session : 16 ≡ length change.session_id
  pub name : IsWritable change.holder_name
  pub email : IsWritable change.holder_email
  pub device : IsWritable change.device_name

written : (v w : Bytes) → IsWritable w → (v ≡ w) ⊎ (v ≡ []) → IsWritable v
unfolding valid_utf8
written v w h (inl same) = rw same h
written v w h (inr none_left) = rw none_left (omega arith, refl)

-- Where the checks before the authentication pass, the names of the change are text within the
-- limit, its session id has 16 bytes, and the counter of the stored lease has 64 bits, the lease
-- that an accepted change puts into its candidate is written and read back by the decoder as it
-- is, whatever follows it; its counter is the next one for the same session and 1 for another, and
-- does not wrap.
pub parse_lease-next_lease :
    (c : Container) (u image : UnlockedContainerData) (id : ℕ) (change : LeaseChange)
    (password : Bytes) {next : EditingLeaseData}
    → c.unlocked ≡ some u
    → may_change_lease c id change password ≡ ok tt
    → IsTyped change
    → image.editing_lease.heartbeat_counter < 2 ^ 64
    → next_lease c image change ≡ ok next
    → ReadsBack (parse_lease default_limits) (put_lease (stored next) []) (stored next)
      × (next.heartbeat_counter < 2 ^ 64)
      × (next.heartbeat_counter ≡ (
          if image.editing_lease.active && bytes_eq image.editing_lease.session_id change.session_id
          then image.editing_lease.heartbeat_counter + 1
          else 1))
parse_lease-next_lease c u image id change password {next} hu hm typed h64 e =
    let (apart, some_time, in_time) = may_change_lease-duration c u id change password hu hm in
    let fits = next_lease-fits c image change apart some_time in_time e in
    let (counter, utc, count) = next_lease-counter c image change h64 e in
    let (session, name, email, device) = next_lease-holder c image change e in
    let encodable : IsEncodable (stored next) = record {
      session = elim session [ inl same ↦ rw same typed.session | inr released ↦ rw released refl ];
      counter = counter;
      utc = utc;
      name = written next.holder_name change.holder_name typed.name name;
      email = written next.holder_email change.holder_email typed.email email;
      device = written next.device_name change.device_name typed.device device;
      fits = fits;
    } in
    ((parse_lease-put_lease (stored next) encodable).reads, counter, count)

-- No session but the holder's changes a live lease: an accepted change of an active lease is one of
-- its own session, or a takeover that was confirmed, of a lease that has expired by the clock, or
-- whose heartbeat stood still for its whole duration, or by an owner or recovery slot.
pub next_lease_respects_holder :
    (c : Container) (image : UnlockedContainerData) (change : LeaseChange) {next : EditingLeaseData}
    → image.editing_lease.active ≡ true
    → next_lease c image change ≡ ok next
    → ((image.editing_lease.session_id ≡ change.session_id)
        × (is_session c.local_lease_session change.session_id ≡ true))
      ⊎ ((change.explicit_takeover ≡ true)
          × ((expired image.editing_lease change.now_utc_ms ≡ true)
              ⊎ ((image.editing_lease.duration_ms ≤ change.unchanged_monotonic_ms)
                  ⊎ ((image.owner_slot ≡ true) ⊎ (image.recovery_slot ≡ true)))))
unfolding next_lease
next_lease_respects_holder c image change act e =
    ground (arith, bytes_eq→eq image.editing_lease.session_id change.session_id)

-- The change that the host derives from an offer.
abbrev pub Takes : LeaseChange → EditingLeaseData → ℕ → ℕ → Type 0
Takes change lease now unchanged =
    (change.action ≡ LeaseAction.takeover)
    × (change.explicit_takeover ≡ true)
    × (change.now_utc_ms ≡ now)
    × (change.unchanged_monotonic_ms ≡ unchanged)
    × (bytes_eq lease.session_id change.session_id ≡ false)

-- A takeover that is offered is allowed to another session that asks for it with the same clock
-- readings.
pub offered_takeover_allowed :
    (c : Container) (u : UnlockedContainerData) (session : SlotId) (counter now unchanged : ℕ)
    (change : LeaseChange) (local editor : Bool)
    → c.unlocked ≡ some u
    → advise_lease_entry c session counter now unchanged ≡ ok LeaseEntry.takeover
    → Takes change u.editing_lease now unchanged
    → allowed u change false local editor ≡ true
unfolding advise_lease_entry allowed
offered_takeover_allowed c u session counter now unchanged change local editor hu ha ht =
    ground arith

-- To an ordinary slot a takeover is also offered for confirmation while the holder's clock reading
-- is ahead, but the change that is confirmed with the same readings is refused.
pub confirmed_takeover_refused :
    (c : Container) (u : UnlockedContainerData) (session : SlotId) (counter now unchanged : ℕ)
    (change : LeaseChange)
    → c.unlocked ≡ some u
    → advise_lease_entry c session counter now unchanged ≡ ok LeaseEntry.confirm_takeover
    → u.owner_slot ≡ false
    → u.recovery_slot ≡ false
    → Takes change u.editing_lease now unchanged
    → as_expected u.editing_lease change ≡ true
    → next_lease c u change ≡ err (state_error invalid_transition)
unfolding advise_lease_entry next_lease
confirmed_takeover_refused c u session counter now unchanged change hu ha ho hr ht he = ground arith
