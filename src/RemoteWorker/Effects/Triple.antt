-- ===== src/RemoteWorker/Effects/Triple.antt =====
-- Pre- and postconditions of actions. An exception and a kill have a postcondition of their own.
use project_bourne.Prelude.{ℕ, zero, suc, Bool, true, false, ◌≡◌, refl, if◌then◌else◌}
use project_bourne.RemoteWorker.Effects.{
  World, Env, Outcome, returned, raised, killed, Exec, continue, ◌>>=◌, lift, spend,
}

-- What holds of the world that an action leaves.
abbrev pub Ends :
    {A : Type 0} → (A → World → Type 0) → (World → Type 0) → Outcome A → World → Type 0
Ends Q R (returned a) w = Q a w
Ends Q R (raised x) w = R w
Ends Q R killed w = R w

pub record Triple {A : Type 0} (P : World → Type 0) (m : Exec A) (Q : A → World → Type 0)
    (R : World → Type 0) : Type 0 where
  pub at : (e : Env) (w : World) → P w → Ends Q R (m e w).0 (m e w).1

module _ {A B : Type 0} {S : B → World → Type 0} {R : World → Type 0} where
  continue-Ends :
      (Q : A → World → Type 0) (f : A → Exec B) (r : Outcome A) (e : Env) (w : World)
      → Ends Q R r w
      → ((a : A) → Triple (Q a) (f a) S R)
      → Ends S R (continue r f e w).0 (continue r f e w).1
  continue-Ends Q f (returned a) e w h k = (k a).at e w h
  continue-Ends Q f (raised x) e w h k = h
  continue-Ends Q f killed e w h k = h

  pub Triple-bind :
      {P : World → Type 0} (Q : A → World → Type 0) (m : Exec A) (f : A → Exec B)
      → Triple P m Q R
      → ((a : A) → Triple (Q a) (f a) S R)
      → Triple P (m >>= f) S R
  Triple-bind Q m f t k = record {
    at = λ e w p. let (r, w') = m e w in continue-Ends Q f r e w' (t.at e w p) k;
  }

module _ {A : Type 0} {P : World → Type 0} {Q : A → World → Type 0} {R : World → Type 0} where
  pub Triple-before :
      {P' : World → Type 0} {m : Exec A}
      → ((w : World) → P' w → P w)
      → Triple P m Q R
      → Triple P' m Q R
  Triple-before f t = record { at = λ e w p. t.at e w (f w p) }

  pub Triple-if :
      (b : Bool) (m n : Exec A)
      → (b ≡ true → Triple P m Q R)
      → (b ≡ false → Triple P n Q R)
      → Triple P (if b then m else n) Q R
  Triple-if true m n tm tn = tm refl
  Triple-if false m n tm tn = tn refl

-- To change both postconditions.
pub Ends-map :
    {A : Type 0} (Q Q' : A → World → Type 0) (R R' : World → Type 0) (r : Outcome A) (w : World)
    → ((a : A) → Q a w → Q' a w)
    → (R w → R' w)
    → Ends Q R r w
    → Ends Q' R' r w
Ends-map Q Q' R R' (returned a) w f g h = f a h
Ends-map Q Q' R R' (raised x) w f g h = g h
Ends-map Q Q' R R' killed w f g h = g h

-- A durable effect happens, or the process is killed before it.
pub spend-Ends :
    (Q : Unit {0} → World → Type 0) (R : World → Type 0) (budget : ℕ) (effect : World → World)
    (w : World)
    → ((left : ℕ) → Q tt (effect (record w { budget = left })))
    → R w
    → Ends Q R (spend budget effect w).0 (spend budget effect w).1
spend-Ends Q R zero effect w q r = r
spend-Ends Q R (suc left) effect w q r = q left

-- The condition that always holds.
abbrev pub Anything : World → Type 0
Anything w = Unit

trivially : {A : Type 0} (r : Outcome A) (w : World) → Ends (λ (a : A). Anything) Anything r w
trivially (returned a) w = tt
trivially (raised x) w = tt
trivially killed w = tt

pub anything : {A : Type 0} (m : Exec A) → Triple Anything m (λ _. Anything) Anything
anything m = record { at = λ e w h. trivially (m e w).0 (m e w).1 }

-- What an outcome returns is what it returned.
pub lifted :
    {A : Type 0} (r : Outcome A) → Triple Anything (lift r) (λ a _. r ≡ returned a) Anything
unfolding lift
lifted (returned a) = record { at = λ e w h. refl }
lifted (raised x) = record { at = λ e w h. tt }
lifted killed = record { at = λ e w h. tt }
