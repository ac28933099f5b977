-- ===== src/Node/Hoare.antt =====
-- What the actions of a node keep, and what holds when they return.
use distributed_hash_table.Prelude.{
  Option, none, some, Bool, true, false, if◌then◌else◌, Outcome, ok, panic, waits, stuck, ◌≡◌,
}
use distributed_hash_table.Prelude.{◌>>=◌ as and_then}
use distributed_hash_table.Pdu.SocketAddr.{SocketAddr}
use distributed_hash_table.Node.Types.{Node, World, Output}
use distributed_hash_table.Node.Exec.{
  Exec, pure, fail, ◌>>=◌, this, world, modify, or_fail, log, reach,
}
use mathlib.Core.Path.{subst}

-- A run that panics or waits says nothing.
abbrev pub After : {A : Type 0} → (World → Type 0) → Outcome (A × World) → Type 0
After Q (ok r) = Q r.1
After Q panic = Unit {0}
After Q waits = Unit {0}
After Q stuck = Unit {0}

pub After-ok :
    {A : Type 0} (Q : World → Type 0) (o : Outcome (A × World)) (r : A × World)
    → After Q o
    → o ≡ ok r
    → Q r.1
After-ok Q o r a e = subst (After Q) e a

pub After-mono :
    {A : Type 0} (Q R : World → Type 0) (o : Outcome (A × World))
    → ((w : World) → Q w → R w)
    → After Q o
    → After R o
After-mono Q R (ok r) f h = f r.1 h
After-mono Q R panic f h = tt
After-mono Q R waits f h = tt
After-mono Q R stuck f h = tt

-- `m` returns in `Q` only.
pub record Ends {A : Type 0} (Q : World → Type 0) (m : Exec A) : Type 0 where
  pub at : (w : World) → After Q (m w)

-- `m` keeps `P`.
pub record Keeps {A : Type 0} (P : World → Type 0) (m : Exec A) : Type 0 where
  pub at : (w : World) → P w → After P (m w)

module _ {A B : Type 0} (Q : World → Type 0) (f : A → Exec B) where
  After-any :
      (o : Outcome (A × World)) → ((a : A) → Ends Q (f a)) → After Q (and_then o (λ r. f r.0 r.1))
  After-any (ok r) e = (e r.0).at r.1
  After-any panic e = tt
  After-any waits e = tt
  After-any stuck e = tt

  After-kept :
      (o : Outcome (A × World))
      → After Q o
      → ((a : A) → Keeps Q (f a))
      → After Q (and_then o (λ r. f r.0 r.1))
  After-kept (ok r) h k = (k r.0).at r.1 h
  After-kept panic h k = tt
  After-kept waits h k = tt
  After-kept stuck h k = tt

module _ (Q : World → Type 0) where
  pub Ends-bind :
      {A B : Type 0} (m : Exec A) (f : A → Exec B) → ((a : A) → Ends Q (f a)) → Ends Q (m >>= f)
  unfolding ◌>>=◌
  Ends-bind m f e = record { at = λ w. After-any Q f (m w) e }

  pub Ends-if :
      {A : Type 0} (b : Bool) (m n : Exec A) → Ends Q m → Ends Q n → Ends Q (if b then m else n)
  Ends-if true m n e f = e
  Ends-if false m n e f = f

  pub Ends-fail : {A : Type 0} → Ends {A = A} Q fail
  unfolding fail
  Ends-fail = record { at = λ w. tt }

  pub Ends-modify :
      (f : Node → Node) → ((w : World) → Q (record w { node = f w.node })) → Ends Q (modify f)
  unfolding modify
  Ends-modify f q = record { at = q }

  pub Keeps-bind :
      {A B : Type 0} (m : Exec A) (f : A → Exec B)
      → Keeps Q m
      → ((a : A) → Keeps Q (f a))
      → Keeps Q (m >>= f)
  unfolding ◌>>=◌
  Keeps-bind m f k e = record { at = λ w h. After-kept Q f (m w) (k.at w h) e }

  pub Keeps-if :
      {A : Type 0} (b : Bool) (m n : Exec A) → Keeps Q m → Keeps Q n → Keeps Q (if b then m else n)
  Keeps-if true m n e f = e
  Keeps-if false m n e f = f

  pub Keeps-pure : {A : Type 0} (a : A) → Keeps Q (pure a)
  unfolding pure
  Keeps-pure a = record { at = λ w h. h }

  pub Keeps-fail : {A : Type 0} → Keeps {A = A} Q fail
  unfolding fail
  Keeps-fail = record { at = λ w h. tt }

  pub Keeps-this : Keeps Q this
  unfolding this
  Keeps-this = record { at = λ w h. h }

  pub Keeps-world : Keeps Q world
  unfolding world
  Keeps-world = record { at = λ w h. h }

  pub Keeps-or_fail : {A : Type 0} (o : Option A) → Keeps Q (or_fail o)
  unfolding or_fail
  Keeps-or_fail none = Keeps-fail
  Keeps-or_fail (some a) = Keeps-pure a

  pub Keeps-modify :
      (f : Node → Node)
      → ((w : World) → Q w → Q (record w { node = f w.node }))
      → Keeps Q (modify f)
  unfolding modify
  Keeps-modify f q = record { at = q }

  pub Ends-Keeps : {A : Type 0} (m : Exec A) → Ends Q m → Keeps Q m
  Ends-Keeps m e = record { at = λ w _. e.at w }

-- A predicate of the node alone: the log and the environment do not matter.
module _ (P : Node → Type 0) where
  abbrev pub OnNode : World → Type 0
  OnNode w = P w.node

  After-reach :
      (addr : SocketAddr) (o : Output) (w : World) (b : Bool)
      → P w.node
      → After OnNode (if b then log o w else panic)
  unfolding log
  After-reach addr o w true h = h
  After-reach addr o w false h = tt

  pub Keeps-reach : (addr : SocketAddr) (o : Output) → Keeps OnNode (reach addr o)
  unfolding reach
  Keeps-reach addr o = record { at = λ w h. After-reach addr o w (w.reachable addr) h }

  pub Keeps-log : (o : Output) → Keeps OnNode (log o)
  unfolding log
  Keeps-log o = record { at = λ w h. h }
