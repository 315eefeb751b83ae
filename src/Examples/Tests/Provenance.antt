-- ===== src/Examples/Tests/Provenance.antt =====
-- The tests of domain/provenance.rs.
use tee.Base.{◌≡◌, refl, ◌==◌, Bool, true, false, not, ◌&&◌, pos, [], ◌∷◌, length, string_key}
use tee.Base.Int.{int_eq}
use tee.Collections.BTreeSet.{BTreeSet, insert}
use tee.Domain.Provenance
use tee.Domain.Provenance.{Provenance, provenance_ord}
use tee.Examples.Tests.Run.{is_lt, all_hold}

abbrev equality_ignores_timestamp : Bool
equality_ignores_timestamp =
    let a = Provenance.with_timestamp (Provenance.new "agent-1" "alert") (pos 100) (pos 0) in
    let b = Provenance.with_timestamp (Provenance.new "agent-1" "alert") (pos 200) (pos 0) in
    Provenance.eq a b

abbrev different_source_not_equal : Bool
different_source_not_equal =
    let a = Provenance.new "agent-1" "alert" in
    let b = Provenance.new "agent-2" "alert" in not (Provenance.eq a b)

abbrev different_trigger_not_equal : Bool
different_trigger_not_equal =
    let a = Provenance.new "agent-1" "alert" in
    let b = Provenance.new "agent-1" "log-scan" in not (Provenance.eq a b)

-- `set.iter().next().unwrap()` has the time of the first insert.
abbrev first_seconds_100 : BTreeSet Provenance → Bool
first_seconds_100 [] = false
first_seconds_100 (entry ∷ _) = int_eq entry.timestamp_seconds (pos 100)

abbrev btreeset_dedup_by_identity : Bool
btreeset_dedup_by_identity =
    let a = Provenance.with_timestamp (Provenance.new "agent-1" "alert") (pos 100) (pos 0) in
    let b = Provenance.with_timestamp (Provenance.new "agent-1" "alert") (pos 200) (pos 0) in
    let set = insert (insert [] a) b in length set == 1 && first_seconds_100 set

abbrev btreeset_keeps_distinct_entries : Bool
btreeset_keeps_distinct_entries =
    let a = Provenance.new "agent-1" "alert" in
    let b = Provenance.new "agent-2" "log-scan" in
    let set = insert (insert [] a) b in length set == 2

abbrev ordering_is_deterministic : Bool
ordering_is_deterministic =
    let a = Provenance.new "a" "x" in
    let b = Provenance.new "a" "y" in
    let c = Provenance.new "b" "x" in is_lt (Provenance.cmp a b) && is_lt (Provenance.cmp b c)

tests_pass :
    all_hold (
      equality_ignores_timestamp ∷ different_source_not_equal ∷ different_trigger_not_equal
      ∷ btreeset_dedup_by_identity ∷ btreeset_keeps_distinct_entries ∷ ordering_is_deterministic
      ∷ [])
    ≡ true
unfolding Provenance.new Provenance.with_timestamp Provenance.eq Provenance.cmp insert
    provenance_ord string_key
tests_pass = refl
