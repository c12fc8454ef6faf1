-- ===== src/Tracing/Laws.antt =====
-- The walk of tracing.py ends, also where the recorded parents form a circle.
use project_bourne.Prelude.{
  ℕ, zero, suc, ◌≤◌, ◌<◌, ◌≡◌, ◌≢◌, ◌⊎◌, refl, sym, ap, inl, inr, String, string_eq, eq_iff,
  string_beq, true, false, none, some, List, [], ◌∷◌, contains, length, DistinctFrom, Distinct,
  Bool-cases, Option-cases, if◌then◌else◌, arith,
}
use project_bourne.Tracing.{Store, Walk, running, absent, walked, behind, walk, ancestry}

-- How many known identities were not met.
unfoldable unseen : List String → List String → ℕ
unseen [] seen = 0
unseen (k ∷ known) seen = if contains seen k then unseen known seen else suc (unseen known seen)

unseen-le : (p : String) (known seen : List String) → unseen known (p ∷ seen) ≤ unseen known seen
unfolding unseen
unseen-le p [] seen = omega arith
unseen-le p (k ∷ known) seen = ground (arith, unseen-le p known seen)

unseen-lt :
    (p : String) (known seen : List String)
    → contains known p ≡ true
    → contains seen p ≡ false
    → unseen known (p ∷ seen) < unseen known seen
unfolding unseen
unseen-lt p [] seen h n = ground arith
unseen-lt p (k ∷ known) seen h n = elim (Bool-cases (string_beq p k)) [
  | inl same ↦ ground (arith, (eq_iff p k).0 same, (eq_iff k k).1 refl, n, unseen-le p known seen)
  | inr differ ↦ ground (arith, differ, h, unseen-le p known seen, unseen-lt p known seen)
]

-- The parents that a walk meets are distinct, and were not met before.
abbrev Fresh : List String → Walk → Type 0
Fresh seen running = Unit
Fresh seen absent = Unit
Fresh seen (walked ancestors) = DistinctFrom seen ancestors

behind-Fresh :
    (p : String) (seen : List String) (r : Walk)
    → contains seen p ≡ false
    → Fresh (p ∷ seen) r
    → Fresh seen (behind p r)
unfolding behind
behind-Fresh p seen running n h = tt
behind-Fresh p seen absent n h = tt
behind-Fresh p seen (walked ancestors) n h = (n, h)

behind-running : (p : String) (r : Walk) → r ≢ running → behind p r ≢ running
unfolding behind
behind-running p running h = ground arith
behind-running p absent h = ground arith
behind-running p (walked xs) h = ground arith

module _ (store : Store) where
  walk-Fresh :
      (rounds : ℕ) (current : String) (seen : List String)
      → Fresh seen (walk store rounds current seen)
  unfolding walk
  walk-Fresh zero current seen = tt
  walk-Fresh (suc rounds) current seen = elim (Option-cases (store.parent_of current)) [
    | inl h ↦ ground (arith, h)
    | inr (p, h) ↦ elim (Bool-cases (contains seen p)) [
      | inl met ↦ ground (arith, h, met)
      | inr new ↦ ground (
        arith,
        h,
        new,
        behind-Fresh p seen (walk store rounds p (p ∷ seen)) new (walk-Fresh rounds p (p ∷ seen)),
      )
    ]
  ]

  walk-ends :
      (known : List String)
      → ((c p : String) → store.parent_of c ≡ some p → contains known p ≡ true)
      → (rounds : ℕ) (current : String) (seen : List String) → unseen known seen < rounds
      → walk store rounds current seen ≢ running
  unfolding walk
  walk-ends known all zero current seen l = absurd (omega (arith, l))
  walk-ends known all (suc rounds) current seen l = elim (Option-cases (store.parent_of current)) [
    | inl h ↦ ground (arith, h)
    | inr (p, h) ↦ elim (Bool-cases (contains seen p)) [
      | inl met ↦ ground (arith, h, met)
      | inr new ↦ ground (
        arith,
        h,
        new,
        behind-running p (walk store rounds p (p ∷ seen)) (
            walk-ends known all rounds p (p ∷ seen)
              (omega (arith, l, unseen-lt p known seen (all current p h) new))),
      )
    ]
  ]

unseen-length : (known seen : List String) → unseen known seen ≤ length known
unfolding unseen
unseen-length [] seen = omega arith
unseen-length (k ∷ known) seen = ground (arith, unseen-length known seen)

-- Each is the recorded parent of the one before, and the last has no parent that was not met.
unfoldable pub Chain : Store → List String → String → List String → Type 0
Chain store seen current [] =
    (store.parent_of current ≡ none)
    ⊎ ((p : String) × (store.parent_of current ≡ some p) × (contains seen p ≡ true))
Chain store seen current (p ∷ ancestors) =
    (store.parent_of current ≡ some p) × (store.has p ≡ true) × Chain store (p ∷ seen) p ancestors

abbrev Linked : Store → List String → String → Walk → Type 0
Linked store seen current running = Unit
Linked store seen current absent = Unit
Linked store seen current (walked ancestors) = Chain store seen current ancestors

module _ (store : Store) where
  behind-Linked :
      (current p : String) (seen : List String) (r : Walk)
      → store.parent_of current ≡ some p
      → store.has p ≡ true
      → Linked store (p ∷ seen) p r
      → Linked store seen current (behind p r)
  unfolding behind Chain
  behind-Linked current p seen running h f l = tt
  behind-Linked current p seen absent h f l = tt
  behind-Linked current p seen (walked ancestors) h f l = (h, f, l)

  walk-Linked :
      (rounds : ℕ) (current : String) (seen : List String)
      → Linked store seen current (walk store rounds current seen)
  unfolding walk Chain
  walk-Linked zero current seen = tt
  walk-Linked (suc rounds) current seen = elim (Option-cases (store.parent_of current)) [
    | inl h ↦ ground (arith, h)
    | inr (p, h) ↦ elim (Bool-cases (contains seen p)) [
      | inl met ↦ ground (arith, h, met)
      | inr new ↦ elim (Bool-cases (store.has p)) [
        | inr gone ↦ ground (arith, h, new, gone)
        | inl found ↦ ground (
          arith,
          h,
          new,
          found,
          behind-Linked current p seen (walk store rounds p (p ∷ seen)) h found
              (walk-Linked rounds p (p ∷ seen)),
        )
      ]
    ]
  ]

ancestors_of : Walk → List String
ancestors_of (walked ancestors) = ancestors
ancestors_of _ = []

walked-parts :
    (store : Store) (seen : List String) (current : String) (r : Walk) (ancestors : List String)
    → r ≡ walked ancestors
    → Fresh seen r
    → Linked store seen current r
    → DistinctFrom seen ancestors × Chain store seen current ancestors
unfolding ancestors_of
walked-parts store seen current running ancestors h f l = ground (arith, h)
walked-parts store seen current absent ancestors h f l = ground (arith, h)
walked-parts store seen current (walked xs) ancestors h f l = rw (sym (ap ancestors_of h)) (f, l)

-- If every recorded parent is among the known identities, then the walk over the parents ends
-- within one round more than there are known identities, also where the parents form a circle.
pub ancestry-ends :
    (store : Store) (known : List String) (producer : String) (rounds : ℕ)
    → ((c p : String) → store.parent_of c ≡ some p → contains known p ≡ true)
    → length known < rounds
    → ancestry store rounds producer ≢ running
unfolding ancestry
ancestry-ends store known producer rounds all l =
    walk-ends store known all rounds producer (producer ∷ [])
      (omega (arith, l, unseen-length known (producer ∷ [])))

-- The ancestors that a walk returns and the producer are all distinct, each ancestor exists and
-- is the recorded parent of the one before, and the last has no parent or one that was met.
pub ancestry-Chain :
    (store : Store) (rounds : ℕ) (producer : String) (ancestors : List String)
    → ancestry store rounds producer ≡ walked ancestors
    → Distinct (producer ∷ ancestors) × Chain store (producer ∷ []) producer ancestors
unfolding ancestry
ancestry-Chain store rounds producer ancestors h =
    let parts =
      walked-parts store (producer ∷ []) producer _ ancestors h
        (walk-Fresh store rounds producer (producer ∷ []))
        (walk-Linked store rounds producer (producer ∷ [])) in
    ((refl, parts.0), parts.1)
