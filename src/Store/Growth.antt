-- ===== src/Store/Growth.antt =====
-- store/memory.rs: how a state of the store may follow from another.
pub mod Methods
use tee.Base.{
  ◌≡◌, refl, ap, ◌∙◌, sym, subst, inl, inr, String, Bool, true, some, string_key, string_ord,
}
use tee.Base.Fold.{fold_until, fold_until-keeps_any}
use tee.Collections.BTreeSet.{contains}
use tee.Collections.BTreeMap.{BTreeMap, get, insert}
use tee.Collections.BTreeMap.Laws.{get-insert_self, get-insert_ne, Key-cases}
use tee.Base.{KeyOrd}
use tee.Lattices.{Lattices}
use tee.Domain.Node
use tee.Domain.Node.Facts
use tee.Domain.Edge.{EdgeKey, edge_key, edge_ord}
use tee.Domain.Edge.Merge
use tee.Store.State.{InnerState, IncidentState}

-- Each entry of the first map is still there in the second, and may have changed by `R` only.
module _ {ℓ κ} {K : Type ℓ} {V : Type κ} ⦃o : KeyOrd K⦄ (R : V → V → Type 0) where
  abbrev pub Keeps : BTreeMap K V → BTreeMap K V → Type (ℓ ⊔ κ)
  Keeps m n = (k : K) (a : V) → get m k ≡ some a → (b : V) × (get n k ≡ some b) × R a b

-- The tombstones of an incident stay, and it keeps its time.
pub record IncidentGrows (i j : IncidentState) : Type 0 where
  pub created : j.created_at ≡ i.created_at
  pub nodes :
      (y : String) → contains i.node_tombstones y ≡ true → contains j.node_tombstones y ≡ true
  pub edges :
      (k : EdgeKey) → contains i.edge_tombstones k ≡ true → contains j.edge_tombstones k ≡ true

pub IncidentGrows-refl : (i : IncidentState) → IncidentGrows i i
IncidentGrows-refl i = record { created = refl; nodes = λ y h. h; edges = λ k h. h }

IncidentGrows-trans :
    (i j k : IncidentState) → IncidentGrows i j → IncidentGrows j k → IncidentGrows i k
IncidentGrows-trans i j k g h = record {
  created = h.created ∙ g.created;
  nodes = λ y e. h.nodes y (g.nodes y e);
  edges = λ y e. h.edges y (g.edges y e);
}

module _ {ℓ κ} {K : Type ℓ} {V : Type κ} ⦃o : KeyOrd K⦄ (R : V → V → Type 0)
    (R_refl : (a : V) → R a a) where
  pub Keeps-refl : (m : BTreeMap K V) → Keeps R m m
  Keeps-refl m k a h = (a, h, R_refl a)

  -- Writing what the old value may become, or a value under a new key, keeps the rest.
  pub Keeps-insert :
      (m : BTreeMap K V) (k : K) (v : V)
      → ((a : V) → get m k ≡ some a → R a v)
      → Keeps R m (insert m k v)
  Keeps-insert m k v h j a g = elim (Key-cases j k) [
    | inl same ↦ (v, rw same (get-insert_self m k v), h a (rw same at g))
    | inr other ↦ (a, get-insert_ne m k v j other ∙ g, R_refl a)
  ]

module _ {ℓ κ} {K : Type ℓ} {V : Type κ} ⦃o : KeyOrd K⦄ (R : V → V → Type 0)
    (R_trans : (a b c : V) → R a b → R b c → R a c) where
  pub Keeps-trans : (m n p : BTreeMap K V) → Keeps R m n → Keeps R n p → Keeps R m p
  Keeps-trans m n p g h k a e =
      let (b, f, r) = g k a e in let (c, d, q) = h k b f in (c, d, R_trans a b c r q)

module _ ⦃L : Lattices⦄ where
  -- What may become of the store.
  pub record Grows (s t : InnerState) : Type 0 where
    pub nodes : Keeps Facts.Grows s.nodes t.nodes
    pub edges : Keeps Merge.Grows s.edges t.edges
    pub incidents : Keeps IncidentGrows s.incidents t.incidents

  pub Grows-refl : (s : InnerState) → Grows s s
  Grows-refl s = record {
    nodes = Keeps-refl Facts.Grows Facts.Grows-refl s.nodes;
    edges = Keeps-refl Merge.Grows (λ a p q h. h) s.edges;
    incidents = Keeps-refl IncidentGrows IncidentGrows-refl s.incidents;
  }

  pub Grows-trans : (s t u : InnerState) → Grows s t → Grows t u → Grows s u
  Grows-trans s t u g h = record {
    nodes =
        Keeps-trans Facts.Grows (λ a b c. Facts.Grows-trans) s.nodes t.nodes u.nodes g.nodes
          h.nodes;
    edges =
        Keeps-trans Merge.Grows (λ a b c k l p q e. l p q (k p q e)) s.edges t.edges u.edges g.edges
          h.edges;
    incidents =
        Keeps-trans IncidentGrows IncidentGrows-trans s.incidents t.incidents u.incidents
          g.incidents h.incidents;
  }
