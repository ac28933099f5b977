-- ===== src/Node/Triple.antt =====
-- What holds when an action of a node returns, of its result and of the world.
use distributed_hash_table.Prelude.{
  Option, none, some, Bool, true, false, if◌then◌else◌, Outcome, ok, panic, waits, stuck, ◌≡◌, refl,
}
use distributed_hash_table.Prelude.{◌>>=◌ as and_then}
use distributed_hash_table.Node.Types.{Node, World}
use distributed_hash_table.Node.Exec.{Exec, ◌>>=◌, this, modify, or_fail}
use distributed_hash_table.Node.Hoare.{After, Keeps}

-- The same over the result too.
abbrev pub Yields : {A : Type 0} → (A → World → Type 0) → Outcome (A × World) → Type 0
Yields Q (ok r) = Q r.0 r.1
Yields Q panic = Unit {0}
Yields Q waits = Unit {0}
Yields Q stuck = Unit {0}

-- From a world in `P`, `m` returns in `Q` only.
pub record Triple {A : Type 0} (P : World → Type 0) (Q : A → World → Type 0) (m : Exec A)
    : Type 0 where
  pub at : (w : World) → P w → Yields Q (m w)

Yields-bind :
    {A B : Type 0} (Q : A → World → Type 0) (R : B → World → Type 0) (o : Outcome (A × World))
    (f : A → Exec B)
    → Yields Q o
    → ((a : A) → Triple (Q a) R (f a))
    → Yields R (and_then o (λ r. f r.0 r.1))
Yields-bind Q R (ok r) f h t = (t r.0).at r.1 h
Yields-bind Q R panic f h t = tt
Yields-bind Q R waits f h t = tt
Yields-bind Q R stuck f h t = tt

Yields-kept :
    {A : Type 0} (P : World → Type 0) (o : Outcome (A × World))
    → After P o
    → Yields {A = A} (λ _. P) o
Yields-kept P (ok r) h = h
Yields-kept P panic h = tt
Yields-kept P waits h = tt
Yields-kept P stuck h = tt

After-Yields :
    {A : Type 0} (P : World → Type 0) (o : Outcome (A × World))
    → Yields {A = A} (λ _. P) o
    → After P o
After-Yields P (ok r) h = h
After-Yields P panic h = tt
After-Yields P waits h = tt
After-Yields P stuck h = tt

Yields-mono :
    {A : Type 0} (Q R : A → World → Type 0) (o : Outcome (A × World))
    → ((a : A) (w : World) → Q a w → R a w)
    → Yields Q o
    → Yields R o
Yields-mono Q R (ok r) f h = f r.0 r.1 h
Yields-mono Q R panic f h = tt
Yields-mono Q R waits f h = tt
Yields-mono Q R stuck f h = tt

module _ (P : World → Type 0) where
  pub Triple-bind :
      {A B : Type 0} {Q : A → World → Type 0} {R : B → World → Type 0} (m : Exec A) (f : A → Exec B)
      → Triple P Q m
      → ((a : A) → Triple (Q a) R (f a))
      → Triple P R (m >>= f)
  unfolding ◌>>=◌
  Triple-bind {Q} {R} m f s t = record { at = λ w h. Yields-bind Q R (m w) f (s.at w h) t }

  pub Triple-kept : {A : Type 0} (m : Exec A) → Keeps P m → Triple P (λ _. P) m
  Triple-kept m k = record { at = λ w h. Yields-kept P (m w) (k.at w h) }

  pub Triple-this : Triple P (λ n w. P w × (n ≡ w.node)) this
  unfolding this
  Triple-this = record { at = λ w h. (h, refl) }

  pub Triple-or_fail :
      {A : Type 0} (o : Option A) → Triple P (λ a w. P w × (o ≡ some a)) (or_fail o)
  unfolding or_fail
  Triple-or_fail none = record { at = λ w h. tt }
  Triple-or_fail (some a) = record { at = λ w h. (h, refl) }

  pub Triple-if :
      {A : Type 0} {Q : A → World → Type 0} (b : Bool) (m n : Exec A)
      → (b ≡ true → Triple P Q m)
      → (b ≡ false → Triple P Q n)
      → Triple P Q (if b then m else n)
  Triple-if true m n s t = s refl
  Triple-if false m n s t = t refl

  pub Triple-modify :
      {Q : World → Type 0} (f : Node → Node)
      → ((w : World) → P w → Q (record w { node = f w.node }))
      → Triple P (λ _. Q) (modify f)
  unfolding modify
  Triple-modify f q = record { at = q }

  pub Triple-weaken :
      {A : Type 0} (P' : World → Type 0) {Q : A → World → Type 0} (m : Exec A)
      → ((w : World) → P w → P' w)
      → Triple P' Q m
      → Triple P Q m
  Triple-weaken P' m f t = record { at = λ w h. t.at w (f w h) }

  pub Triple-mono :
      {A : Type 0} {Q R : A → World → Type 0} (m : Exec A)
      → ((a : A) (w : World) → Q a w → R a w)
      → Triple P Q m
      → Triple P R m
  Triple-mono {Q} {R} m f t = record { at = λ w h. Yields-mono Q R (m w) f (t.at w h) }

  pub Triple-After :
      (m : Exec (Unit {0})) (w : World) {Q : World → Type 0}
      → Triple P (λ _. Q) m
      → P w
      → After Q (m w)
  Triple-After m w {Q} t h = After-Yields Q (m w) (t.at w h)

  pub Triple-Keeps : {A : Type 0} (m : Exec A) → Triple P (λ _. P) m → Keeps P m
  Triple-Keeps m t = record { at = λ w h. After-Yields P (m w) (t.at w h) }
