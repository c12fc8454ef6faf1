-- ===== src/Tracing.antt =====
-- `trace_artifact` of tracing.py: the walk over the parents of the experiment that made an artifact.
pub mod Laws
mod Tests
use project_bourne.Prelude.{
  ℕ, zero, suc, String, string_eq, Bool, true, false, not, Option, none, some, List, [], ◌∷◌,
  contains, if◌then◌else◌,
}

-- What the walk asks of the store, which is a database: the parent that `get_lineage` names, and
-- whether `get` finds an experiment.
pub record Store : Type 0 where
  pub parent_of : String → Option String
  pub has : String → Bool

-- A walk that is still running, one that ended in the exception of `get`, and the parents that were
-- met, from the nearest on.
pub data Walk : Type 0 where
  running absent : Walk
  walked : List String → Walk

unfoldable pub behind : String → Walk → Walk
behind parent (walked ancestors) = walked (parent ∷ ancestors)
behind parent running = running
behind parent absent = absent

-- The `while` loop, for at most so many rounds; `seen` are the identities that were met.
unfoldable pub walk : Store → ℕ → String → List String → Walk
unfolding behind
walk store zero current seen = running
walk store (suc rounds) current seen = elim (store.parent_of current) [
  | none ↦ walked []
  | some parent ↦
      let rest = behind parent (walk store rounds parent (parent ∷ seen)) in
      if contains seen parent then walked [] else if store.has parent then rest else absent
]

-- `ancestry`, from the producer on.
unfoldable pub ancestry : Store → ℕ → String → Walk
ancestry store rounds producer = walk store rounds producer (producer ∷ [])
