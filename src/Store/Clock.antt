-- ===== src/Store/Clock.antt =====
-- `create_incident`: the clock's `u64` seconds and `u32` nanoseconds as the `i64` and `i32` of a
-- message.
use tee.Base.{
  ℕ, ◌<◌, ◌^◌, ◌-◌, ◌%◌, ◌≡◌, ap, ◌∙◌, String, none, some, [], arith, ok, pos, negsuc, ltb,
  if◌then◌else◌, string_key,
}
use tee.Base.Int.{as_i64, as_i32}
use tee.Collections.BTreeMap.{get}
use tee.Lattices.{Lattices}
use tee.Store.State.{InnerState}
use tee.Store.Incidents.{create_incident, get_incident_context, timestamp_of}
use tee.Store.Views.Isolation.{create_incident_lem}

as_i64_lem :
    (n : ℕ) → n < 2 ^ 64 → as_i64 n ≡ (if ltb n (2 ^ 63) then pos n else negsuc (2 ^ 64 - 1 - n))
unfolding as_i64
as_i64_lem n h =
    let m : n % 2 ^ 64 ≡ n = omega arith in
    ap (λ w. if ltb w (2 ^ 63) then pos w else negsuc (2 ^ 64 - 1 - w)) m

as_i32-small : (n : ℕ) → n < 2 ^ 31 → as_i32 n ≡ pos n
unfolding as_i32
as_i32-small n h =
    let m : n % 2 ^ 32 ≡ n = omega arith in
    ap (λ w. if ltb w (2 ^ 31) then pos w else negsuc (2 ^ 32 - 1 - w)) m ∙ ground arith

module _ ⦃L : Lattices⦄ where
  -- An incident that is created at `secs` seconds, fewer than 2^64, and `nanos` nanoseconds, fewer
  -- than 10^9, is answered with just that time as long as there are fewer than 2^63 seconds, and
  -- with the seconds lowered by 2^64, a negative number, from there on.
  pub create_incident_time :
      (secs nanos : ℕ) (id : String) (s : InnerState)
      → secs < 2 ^ 64
      → nanos < 10 ^ 9
      → get s.incidents id ≡ none
      → get_incident_context id (create_incident (some (secs, nanos)) id s).0
        ≡ ok (record {
          incident_id = id;
          created_at = some (record {
            seconds = if ltb secs (2 ^ 63) then pos secs else negsuc (2 ^ 64 - 1 - secs);
            nanos = pos nanos;
          });
          tombstones = some (record { node_ids = []; edge_entries = [] });
        })
  unfolding timestamp_of
  create_incident_time secs nanos id s in_u64 in_second new =
      let in_i32 : nanos < 2 ^ 31 = omega arith in
      let now = some (secs, nanos) in
      let (created, made, _, _, context) = create_incident_lem now now id s new in
      ap (λ o. get_incident_context id o.0) made ∙ context ∙ λ i. ok (record {
        incident_id = id;
        created_at =
            some
              (record { seconds = as_i64_lem secs in_u64 i; nanos = as_i32-small nanos in_i32 i });
        tombstones = some (record { node_ids = []; edge_entries = [] });
      })
