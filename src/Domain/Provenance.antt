-- ===== src/Domain/Provenance.antt =====
-- domain/provenance.rs: a provenance record, whose equality and order look at the source and the
-- trigger only.
use tee.Base.{ℤ, pos, String, Bool, ◌&&◌, Ordering, Ord, string_eq, string_key}
use tee.Base.Order.{lex, pair_key, lex-IsLawful, on-IsLawful, IsLawful}

pub record Provenance : Type 0 where
  pub source : String
  pub trigger : String
  pub timestamp_seconds : ℤ
  pub timestamp_nanos : ℤ

unfoldable pub new : String → String → Provenance
new source trigger = record {
  source = source;
  trigger = trigger;
  timestamp_seconds = pos 0;
  timestamp_nanos = pos 0;
}

unfoldable pub with_timestamp : Provenance → ℤ → ℤ → Provenance
with_timestamp p seconds nanos = record p { timestamp_seconds = seconds; timestamp_nanos = nanos }

-- The pair that `eq`, `cmp` and `hash` read.
abbrev pub identity : Provenance → String × String
identity p = (p.source, p.trigger)

-- `PartialEq::eq`.
unfoldable pub eq : Provenance → Provenance → Bool
eq a b = string_eq.beq a.source b.source && string_eq.beq a.trigger b.trigger

-- `Ord::cmp`: that of the pair of the source and the trigger.
unfoldable pub cmp : Provenance → Provenance → Ordering
cmp a b = lex (identity a) (identity b)

pub cmp-IsLawful : IsLawful cmp
unfolding cmp
cmp-IsLawful = on-IsLawful identity lex lex-IsLawful

instance unfoldable pub provenance_ord : Ord Provenance
provenance_ord = record { cmp = cmp; lawful = cmp-IsLawful }
