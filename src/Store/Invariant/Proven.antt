-- ===== src/Store/Invariant/Proven.antt =====
-- Provenance sets: where they come from and what the invariant says of them.
use tee.Base.{◌≢◌, refl, List, [], ◌∷◌, map, All, All-map, All-imp}
use tee.Collections.BTreeSet.{BTreeSet, extend, from_iter}
use tee.Collections.BTreeSet.Laws.{from_iter-IsSorted, extend-IsSorted}
use tee.Collections.BTreeSet.Elements.{from_iter-ne-nil, All-from_iter, extend-ne-nil, All-extend}
use tee.Proto
use tee.Validation.Spec.{IsValidProvenance}
use tee.Domain.Provenance.{Provenance, provenance_ord}
use tee.Convert.{provenance_from_proto, provenance_to_proto}
use tee.Store.Invariant.{IsNamed, IsProven}

map-ne-nil {ℓ κ} : {A : Type ℓ} {B : Type κ} (f : A → B) (xs : List A) → xs ≢ [] → map f xs ≢ []
map-ne-nil f [] h e = h refl
map-ne-nil f (x ∷ xs) h e = cc

provenance_from_proto-IsNamed :
    (p : Proto.Provenance) → IsValidProvenance p → IsNamed (provenance_from_proto p)
unfolding provenance_from_proto
provenance_from_proto-IsNamed p h = record { source = h.source; trigger = h.trigger }

provenance_to_proto-IsValidProvenance :
    (p : Provenance) → IsNamed p → IsValidProvenance (provenance_to_proto p)
unfolding provenance_to_proto
provenance_to_proto-IsValidProvenance p h = record { source = h.source; trigger = h.trigger }

pub collected-IsProven :
    (ps : List Proto.Provenance)
    → All IsValidProvenance ps
    → ps ≢ []
    → IsProven (from_iter (map provenance_from_proto ps))
collected-IsProven ps h n = record {
  sorted = from_iter-IsSorted (map provenance_from_proto ps);
  some_entry = from_iter-ne-nil _ (map-ne-nil provenance_from_proto ps n);
  named =
      All-from_iter IsNamed _
        (All-map IsNamed provenance_from_proto ps (All-imp provenance_from_proto-IsNamed ps h));
}

pub extend-IsProven : (s t : BTreeSet Provenance) → IsProven s → IsProven t → IsProven (extend s t)
extend-IsProven s t h k = record {
  sorted = extend-IsSorted s t h.sorted;
  some_entry = extend-ne-nil s t h.some_entry;
  named = All-extend IsNamed s t h.named k.named;
}

-- A proven set is valid provenance as a message.
pub messages-IsValid :
    (s : BTreeSet Provenance)
    → IsProven s
    → (map provenance_to_proto s ≢ []) × All IsValidProvenance (map provenance_to_proto s)
messages-IsValid s h = (
  map-ne-nil provenance_to_proto s h.some_entry,
  All-map IsValidProvenance provenance_to_proto s
      (All-imp provenance_to_proto-IsValidProvenance s h.named),
)
