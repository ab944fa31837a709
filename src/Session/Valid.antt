-- ===== src/Session/Valid.antt =====
-- internal/agent/runtime/session/session.go: the invariant of a session.
pub mod Store
pub mod Append
pub mod Leaf
pub mod Boundary
pub mod Load
pub mod Fork
pub mod Forked
pub mod Journal
pub mod Reach
use oops.Prelude.{
  String, List, [], some, Bool, true, false, ◌||◌, ◌≡◌, refl, Dict, lookup, has, contains, distinct,
  str_eq,
}
use oops.Session.Entry.{Entry}
use oops.Session.Tree.{Session, new}
use oops.Session.Tree.Chain.{Chain, root}

-- The empty id, or an id of the map.
abbrev pub known : Dict Entry → String → Bool
known m id = str_eq id "" || has id m

pub record IsValid (s : Session) : Type 0 where
  pub keyed : (id : String) → contains id s.order ≡ has id s.entries
  pub once : distinct s.order ≡ true
  pub own : (id : String) (e : Entry) → lookup id s.entries ≡ some e → e.id ≡ id
  pub named : has "" s.entries ≡ false
  pub rooted :
      (id : String) → known s.entries id ≡ true → (path : List Entry) × Chain s.entries id path
  pub leaf : known s.entries s.leaf_id ≡ true
