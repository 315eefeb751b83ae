-- ===== src/Refinement/Fates.antt =====
-- The answer of `merge_hypothesis` of store/memory.rs as the list of what became of the nodes and
-- edges.
use mathlib.Core.List.{append_assoc, append-nil}
use tee.Base.{
  ◌≡◌, refl, ap, sym, ◌∙◌, String, Bool, ◌||◌, Option, none, some, List, [], ◌∷◌, ◌++◌, map, Result,
  ok, err, push, string_eq, string_key, if◌then◌else◌,
}
use tee.Collections.BTreeSet.{is_eq}
use tee.Collections.BTreeSet.Joins.{or_else}
use tee.Proto
use tee.Domain.Types.{NodeType, node_type_eq, show_node_type}
use tee.Domain.Edge.{EdgeKey, new_key, edge_key}
use tee.Convert.{node_type_try_from, edge_type_try_from}
use tee.Store.Hypothesis.{edge_id}

-- What becomes of a node or an edge of a delta. A clash names a field and the value it has.
pub data Fate : Type 0 where
  created merged : Fate
  clashed : String → String → Fate

-- The first type and label that an id got, which the later ones are held against.
abbrev pub Claims : Type 0
Claims = String → Option (NodeType × String)

abbrev pub claim : Claims → String → NodeType × String → Claims
claim claims id c j = or_else (claims j) (if is_eq (string_key.cmp j id) then some c else none)

abbrev pub fate : Option (NodeType × String) → NodeType × String → Fate
fate none c = created
fate (some old) c =
    if node_type_eq.beq old.0 c.0
    then (if string_eq.beq old.1 c.1 then merged else clashed "label" old.1)
    else clashed "type" (show_node_type old.0)

abbrev pub node_fates : Claims → List Proto.Node → List (String × Fate)
node_fates claims [] = []
node_fates claims (n ∷ ns) = elim (node_type_try_from n.type) [
  | err _ ↦ []
  | ok t ↦ (n.id, fate (claims n.id) (t, n.label)) ∷ node_fates (claim claims n.id (t, n.label)) ns
]

-- An edge is new where no edge of its key was there or came before it.
abbrev pub edge_fates : (EdgeKey → Bool) → List Proto.Edge → List (String × Fate)
edge_fates known [] = []
edge_fates known (e ∷ es) = elim (edge_type_try_from e.type) [
  | err _ ↦ []
  | ok t ↦
      let k = new_key e.source e.target t in
      (edge_id e, if known k then merged else created)
      ∷ edge_fates (λ j. is_eq (edge_key.cmp j k) || known j) es
]

-- The lists of an answer.
abbrev pub created_of : List (String × Fate) → List String
created_of [] = []
created_of ((id, created) ∷ fs) = id ∷ created_of fs
created_of ((id, merged) ∷ fs) = created_of fs
created_of ((id, clashed field value) ∷ fs) = created_of fs

abbrev pub merged_of : List (String × Fate) → List String
merged_of [] = []
merged_of ((id, created) ∷ fs) = merged_of fs
merged_of ((id, merged) ∷ fs) = id ∷ merged_of fs
merged_of ((id, clashed field value) ∷ fs) = merged_of fs

abbrev pub conflicts_of : List (String × Fate) → List Proto.MergeConflict
conflicts_of [] = []
conflicts_of ((id, created) ∷ fs) = conflicts_of fs
conflicts_of ((id, merged) ∷ fs) = conflicts_of fs
conflicts_of ((id, clashed field value) ∷ fs) =
    record { id = id; field = field; existing_value = value; proposed_value = "" } ∷ conflicts_of fs

-- An answer with more fates reported in it.
abbrev pub more : Proto.HypothesisMergeResult → List (String × Fate) → Proto.HypothesisMergeResult
more r fs = record {
  created_ids = r.created_ids ++ created_of fs;
  merged_ids = r.merged_ids ++ merged_of fs;
  conflicts = r.conflicts ++ conflicts_of fs;
}

abbrev pub one_more : Proto.HypothesisMergeResult → String → Fate → Proto.HypothesisMergeResult
one_more r id created = record r { created_ids = push r.created_ids id }
one_more r id merged = record r { merged_ids = push r.merged_ids id }
one_more r id (clashed field value) = record r {
  conflicts =
      push r.conflicts
        (record { id = id; field = field; existing_value = value; proposed_value = "" });
}

pub more-nil : (r : Proto.HypothesisMergeResult) → more r [] ≡ r
more-nil r = λ i. record {
  created_ids = append-nil r.created_ids i;
  merged_ids = append-nil r.merged_ids i;
  conflicts = append-nil r.conflicts i;
}

pub more-cons :
    (r : Proto.HypothesisMergeResult) (id : String) (f : Fate) (fs : List (String × Fate))
    → more (one_more r id f) fs ≡ more r ((id, f) ∷ fs)
more-cons r id created fs = λ i. record (more r ((id, created) ∷ fs)) {
  created_ids = append_assoc r.created_ids (id ∷ []) (created_of fs) i;
}
more-cons r id merged fs = λ i. record (more r ((id, merged) ∷ fs)) {
  merged_ids = append_assoc r.merged_ids (id ∷ []) (merged_of fs) i;
}
more-cons r id (clashed field value) fs = λ i. record (more r ((id, clashed field value) ∷ fs)) {
  conflicts =
      append_assoc r.conflicts
        (record { id = id; field = field; existing_value = value; proposed_value = "" } ∷ [])
        (conflicts_of fs) i;
}

pub more-append :
    (r : Proto.HypothesisMergeResult) (fs gs : List (String × Fate))
    → more (more r fs) gs ≡ more r (fs ++ gs)
more-append r [] gs = ap (λ q. more q gs) (more-nil r)
more-append r ((id, f) ∷ fs) gs =
    ap (λ q. more q gs) (sym (more-cons r id f fs))
    ∙ more-append (one_more r id f) fs gs
    ∙ more-cons r id f (fs ++ gs)

pub ok_inj {ℓ κ} : {A : Type ℓ} {E : Type κ} {a b : A} → ◌≡◌ {A = Result A E} (ok a) (ok b) → a ≡ b
ok_inj h = cc

pub map-append {ℓ κ} :
    {A : Type ℓ} {B : Type κ} (f : A → B) (xs ys : List A) → map f (xs ++ ys) ≡ map f xs ++ map f ys
map-append f [] ys = refl
map-append f (x ∷ xs) ys = ap (λ zs. f x ∷ zs) (map-append f xs ys)
