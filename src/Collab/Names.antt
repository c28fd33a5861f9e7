-- ===== src/Collab/Names.antt =====
-- core/collaboration.rs: the closure that the store searches by.
use agent_workspace_hub.Prelude.{◌≡◌, ◌≢◌, ◌↔◌, ◌⊎◌, true, false, Text, text_eq_iff, arith}
use agent_workspace_hub.Collab.{ResourceKind, CollabRecord, kind_eq, names}

pub kind_eq_iff : (a b : ResourceKind) → (kind_eq a b ≡ true) ↔ (a ≡ b)
kind_eq_iff a b = ground arith

pub names_iff :
    (kind : ResourceKind) (id : Text) (r : CollabRecord)
    → (names kind id r ≡ true) ↔ ((r.resource_kind ≡ kind) × (r.resource_id ≡ id))
unfolding names
names_iff kind id r = ground (arith, kind_eq_iff r.resource_kind kind, text_eq_iff r.resource_id id)

-- Two resources are the same or differ in kind or id.
abbrev pub Differ : ResourceKind → Text → ResourceKind → Text → Type 0
Differ k i k' i' = (k ≢ k') ⊎ (i ≢ i')

-- A record is named by one resource only.
pub names-Differ :
    (k : ResourceKind) (i : Text) (k' : ResourceKind) (i' : Text) (r : CollabRecord)
    → Differ k i k' i'
    → names k i r ≡ true
    → names k' i' r ≡ false
names-Differ k i k' i' r d h = ground (arith, names_iff k i r, names_iff k' i' r)

-- Two searches with the same kind and id agree on each record.
pub names_trans :
    (k : ResourceKind) (i : Text) (r s : CollabRecord)
    → names k i r ≡ true
    → names r.resource_kind r.resource_id s ≡ names k i s
names_trans k i r s h =
    ground (arith, names_iff k i r, names_iff k i s, names_iff r.resource_kind r.resource_id s)
