-- ===== src/Batch/Laws/Amounts.antt =====
-- What the amounts in the directives of backends.py stand for.
use native.Mathlib.Nat.{div-add-mod'}
use project_bourne.Prelude.{
  ℕ, ◌*◌, ◌%◌, ◌≤◌, ◌≡◌, inl, inr, String, ◌==◌, nat_eq, Option, none, some, or_one, Bool-cases,
  arith,
}
use project_bourne.Prelude.Checks.{value}
use project_bourne.Batch.Amounts.{mebibytes, whole_minutes, divide, shape_per_node}

-- The mebibytes asked for hold the amount of bytes, and no smaller number from one on does.
pub mebibytes-least :
    (amount : ℕ)
    → (amount ≤ mebibytes amount * 1048576)
      × ((m : ℕ) → 1 ≤ m → amount ≤ m * 1048576 → mebibytes amount ≤ m)
unfolding mebibytes
mebibytes-least amount = (omega arith, λ m p h. omega (arith, p, h))

-- The minutes that LSF is asked for hold the seconds, and no smaller number from one on does.
pub whole_minutes-least :
    (seconds : ℕ)
    → (seconds ≤ whole_minutes seconds * 60)
      × ((m : ℕ) → 1 ≤ m → seconds ≤ m * 60 → whole_minutes seconds ≤ m)
unfolding whole_minutes
whole_minutes-least seconds = (omega arith, λ m p h. omega (arith, p, h))

divide-times :
    (total parts : ℕ) (message : String) (each : ℕ)
    → divide total parts message ≡ value (some each)
    → each * parts ≡ total
unfolding divide
divide-times total parts message each h = elim (Bool-cases (total % parts == 0)) [
  | inl even ↦ ground (arith, h, even, div-add-mod' total parts)
  | inr odd ↦ ground (arith, h, odd)
]

-- The share of a node that is computed from a total, times the number of nodes (one where it is
-- absent or zero), is the total.
pub shape_per_node-times :
    (total : ℕ) (nodes : Option ℕ) (label : String) (each : ℕ)
    → shape_per_node (some total) none nodes label ≡ value (some each)
    → each * or_one nodes ≡ total
unfolding shape_per_node
shape_per_node-times total nodes label each h = divide-times total (or_one nodes) _ each h
