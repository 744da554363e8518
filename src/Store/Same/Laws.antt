-- ===== src/Store/Same/Laws.antt =====
-- Resources that compare equal are equal.
use agent_comm.Prelude.{true, Option, none, some, ◌≡◌, refl, ap, arith, same_iff}
use agent_comm.Store.State.{Provenance, Resource}
use agent_comm.Store.Same.{same_option, same_provenance, same_resource}

same_provenance-eq : (x y : Provenance) → same_provenance x y ≡ true → x ≡ y
unfolding same_provenance
same_provenance-eq x y h = ground (
  arith,
  same_iff x.reference y.reference,
  same_iff x.source y.source,
  same_iff x.version y.version,
)

same_option-eq : (x y : Option Provenance) → same_option same_provenance x y ≡ true → x ≡ y
unfolding same_option
same_option-eq none none h = refl
same_option-eq (some x) (some y) h = ap some (same_provenance-eq x y h)
same_option-eq none (some y) h = cc
same_option-eq (some x) none h = cc

pub same_resource-eq : (x y : Resource) → same_resource x y ≡ true → x ≡ y
unfolding same_resource
same_resource-eq x y h = ground (
  arith,
  same_iff x.resource_id y.resource_id,
  same_iff x.title y.title,
  same_iff x.text y.text,
  same_iff x.sha256 y.sha256,
  same_iff x.owner_id y.owner_id,
  same_option-eq x.provenance y.provenance,
)
