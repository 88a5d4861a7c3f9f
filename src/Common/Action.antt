-- ===== src/Common/Action.antt =====
-- Statements that change a state and may throw: what was written before a throw stays written.
-- `Triple` is total correctness with a postcondition for each way to end.
use mathlib.Core.Path.{◌≡◌, refl}

pub data Outcome (E A : Type 0) : Type 0 where
  returns : A → Outcome E A
  throws : E → Outcome E A

abbrev pub Action : Type 0 → Type 0 → Type 0 → Type 0
Action S E A = S → Outcome E A × S

-- What `finally` makes of the body's outcome: a throw of its own wins.
abbrev pub finish : {E A : Type 0} → Outcome E A → Outcome E (Unit {0}) → Outcome E A
finish r (returns _) = r
finish r (throws e) = throws e

module _ {S E : Type 0} where
  abbrev pub pure : {A : Type 0} → A → Action S E A
  pure a s = (returns a, s)

  abbrev pub throw : {A : Type 0} → E → Action S E A
  throw e s = (throws e, s)

  abbrev pub and_then : {A B : Type 0} → Outcome E A → (A → Action S E B) → Action S E B
  and_then (returns a) f = f a
  and_then (throws e) f = throw e

  infixl 5 ◌>>=◌ ◌>>◌
  abbrev pub ◌>>=◌ : {A B : Type 0} → Action S E A → (A → Action S E B) → Action S E B
  ◌>>=◌ m f s = let (r, s') = m s in and_then r f s'

  abbrev pub ◌>>◌ : {A B : Type 0} → Action S E A → Action S E B → Action S E B
  m >> n = m >>= λ _. n

  -- `try { body } finally { cleanup }`
  abbrev pub try_finally : {A : Type 0} → Action S E A → Action S E (Unit {0}) → Action S E A
  try_finally body cleanup s =
      let (r, s') = body s in let (c, s'') = cleanup s' in (finish r c, s'')

  abbrev pub Ends : {A : Type 0} → (A → S → Type 0) → (S → Type 0) → Outcome E A → S → Type 0
  Ends Q X (returns a) s = Q a s
  Ends Q X (throws e) s = X s

-- From a state with `P`, `m` ends with `Q` if it returns and with `X` if it throws.
pub record Triple {S E A : Type 0} (P : S → Type 0) (m : Action S E A) (Q : A → S → Type 0)
    (X : S → Type 0) : Type 0 where
  pub run : (s : S) → P s → Ends Q X (m s).0 (m s).1

module _ {S E A B : Type 0} where
  and_then-Ends :
      (Q : A → S → Type 0) (R : B → S → Type 0) (X : S → Type 0) (f : A → Action S E B)
      (r : Outcome E A) (s : S)
      → ((a : A) → Triple (Q a) (f a) R X)
      → Ends Q X r s
      → Ends R X (and_then r f s).0 (and_then r f s).1
  and_then-Ends Q R X f (returns a) s next h = (next a).run s h
  and_then-Ends Q R X f (throws e) s next h = h

  pub Triple-bind :
      {P X : S → Type 0} {Q : A → S → Type 0} {R : B → S → Type 0} {m : Action S E A}
      {f : A → Action S E B}
      → Triple P m Q X
      → ((a : A) → Triple (Q a) (f a) R X)
      → Triple P (m >>= f) R X
  Triple-bind {X} {Q} {R} {m} {f} first next = record {
    run = λ s p. and_then-Ends Q R X f (m s).0 (m s).1 next (first.run s p);
  }

module _ {S E A : Type 0} where
  after_return :
      (R : A → S → Type 0) (Y : S → Type 0) (a : A) (c : Outcome E (Unit {0})) (s : S)
      → Ends (λ _. R a) Y c s
      → Ends R Y (finish (returns a) c) s
  after_return R Y a (returns _) s h = h
  after_return R Y a (throws e) s h = h

  after_throw :
      (R : A → S → Type 0) (Y : S → Type 0) (e : E) (c : Outcome E (Unit {0})) (s : S)
      → Ends (λ _. Y) Y c s
      → Ends R Y (finish (throws e) c) s
  after_throw R Y e (returns _) s h = h
  after_throw R Y e (throws _) s h = h

  finally_cases :
      (Q R : A → S → Type 0) (X Y : S → Type 0) (cleanup : Action S E (Unit {0})) (r : Outcome E A)
      (s : S)
      → ((a : A) → Triple (Q a) cleanup (λ _. R a) Y)
      → Triple X cleanup (λ _. Y) Y
      → Ends Q X r s
      → Ends R Y (finish r (cleanup s).0) (cleanup s).1
  finally_cases Q R X Y cleanup (returns a) s good bad h =
      after_return R Y a (cleanup s).0 (cleanup s).1 ((good a).run s h)
  finally_cases Q R X Y cleanup (throws e) s good bad h =
      after_throw R Y e (cleanup s).0 (cleanup s).1 (bad.run s h)

  -- The cleanup runs on both ways out, and a throw of its own is a throw of the whole.
  pub Triple-try_finally :
      {P X Y : S → Type 0} {Q R : A → S → Type 0} {body : Action S E A}
      {cleanup : Action S E (Unit {0})}
      → Triple P body Q X
      → ((a : A) → Triple (Q a) cleanup (λ _. R a) Y)
      → Triple X cleanup (λ _. Y) Y
      → Triple P (try_finally body cleanup) R Y
  Triple-try_finally {X} {Y} {Q} {R} {body} {cleanup} first good bad = record {
    run = λ s p. finally_cases Q R X Y cleanup (body s).0 (body s).1 good bad (first.run s p);
  }

  weaken_Ends :
      (X Y : S → Type 0) (Q R : A → S → Type 0) (r : Outcome E A) (s : S)
      → ((a : A) (t : S) → Q a t → R a t)
      → ((t : S) → X t → Y t)
      → Ends Q X r s
      → Ends R Y r s
  weaken_Ends X Y Q R (returns a) s f g h = f a s h
  weaken_Ends X Y Q R (throws e) s f g h = g s h

  pub Triple-weaken :
      {P P' X Y : S → Type 0} {Q R : A → S → Type 0} {m : Action S E A}
      → ((s : S) → P' s → P s)
      → ((a : A) (t : S) → Q a t → R a t)
      → ((t : S) → X t → Y t)
      → Triple P m Q X
      → Triple P' m R Y
  Triple-weaken {X} {Y} {Q} {R} {m} pre f g t = record {
    run = λ s p. weaken_Ends X Y Q R (m s).0 (m s).1 f g (t.run s (pre s p));
  }

  -- A postcondition from what an outcome equals.
  pub Ends-intro :
      (Q : A → S → Type 0) (X : S → Type 0) (r : Outcome E A) (s : S)
      → ((a : A) → r ≡ returns a → Q a s)
      → ((e : E) → r ≡ throws e → X s)
      → Ends Q X r s
  Ends-intro Q X (returns a) s f g = f a refl
  Ends-intro Q X (throws e) s f g = g e refl
