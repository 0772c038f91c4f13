-- ===== src/Prelude/Action/Triple.antt =====
-- Conditions before and after an action, however it ends, with one rule for each way to build one.
use mathlib.Core.Path.{◌≡◌, refl}
use mathlib.Core.Bool.{Bool, true, false}
use mathlib.Core.List.{List, [], ◌∷◌}
use wealthfinder.Prelude.Tests.{if◌then◌else◌}
use wealthfinder.Prelude.Result.{Exc, Result, ok, raise}
use wealthfinder.Prelude.Action.{
  Outcome, answered, refused, lost, Env, Action, return, lift, modify, end_request, request,
  continue, ◌>>=◌, handle, catch,
}

-- `Q` holds of the value and the state after a return, `X` of the exception and the state after a
-- raise.
abbrev pub Ends : {S A : Type 0} → (A → S → Type 0) → (Exc → S → Type 0) → Result A × Env S → Type 0
Ends Q X (ok a, e) = Q a e.state
Ends Q X (raise x, e) = X x e.state

pub record Triple {S A : Type 0} (P : S → Type 0) (m : Action S A) (Q : A → S → Type 0)
    (X : Exc → S → Type 0) : Type 0 where
  pub run : (e : Env S) → P e.state → Ends Q X (m e)

request-Ends :
    {S A : Type 0} (P : S → Type 0) (Q : A → S → Type 0) (X : Exc → S → Type 0) (read : S → A)
    (write : S → S) (s : S) (os : List Outcome)
    → P s
    → ((s : S) → P s → Q (read s) (write s))
    → ((x : Exc) (s : S) → P s → X x s × X x (write s))
    → Ends Q X (end_request read write s os)
request-Ends P Q X read write s [] p h k = h s p
request-Ends P Q X read write s (answered ∷ os) p h k = h s p
request-Ends P Q X read write s (refused x ∷ os) p h k = (k x s p).0
request-Ends P Q X read write s (lost x ∷ os) p h k = (k x s p).1

handle-Ends :
    {S A : Type 0} (Y : Exc → S → Type 0) (Q : A → S → Type 0) (X : Exc → S → Type 0) (r : Result A)
    (e : Env S) (h : Exc → Action S A)
    → Ends Q Y (r, e)
    → ((x : Exc) → Triple (Y x) (h x) Q X)
    → Ends Q X (handle r h e)
handle-Ends Y Q X (ok a) e h p k = p
handle-Ends Y Q X (raise x) e h p k = (k x).run e p

continue-Ends :
    {S A B : Type 0} (R : A → S → Type 0) (Q : B → S → Type 0) (X : Exc → S → Type 0) (r : Result A)
    (e : Env S) (f : A → Action S B)
    → Ends R X (r, e)
    → ((a : A) → Triple (R a) (f a) Q X)
    → Ends Q X (continue r f e)
continue-Ends R Q X (ok a) e f p k = (k a).run e p
continue-Ends R Q X (raise x) e f p k = p

Ends-mono :
    {S A : Type 0} (Q Q' : A → S → Type 0) (X X' : Exc → S → Type 0) (r : Result A) (e : Env S)
    → ((a : A) (s : S) → Q a s → Q' a s)
    → ((x : Exc) (s : S) → X x s → X' x s)
    → Ends Q X (r, e)
    → Ends Q' X' (r, e)
Ends-mono Q Q' X X' (ok a) e q x h = q a e.state h
Ends-mono Q Q' X X' (raise y) e q x h = x y e.state h

module _ {S A : Type 0} {P : S → Type 0} {Q : A → S → Type 0} {X : Exc → S → Type 0} where
  pub Triple-return : (a : A) → ((s : S) → P s → Q a s) → Triple P (return a) Q X
  Triple-return a h = record { run = λ e p. h e.state p }

  pub Triple-lift :
      (r : Result A)
      → ((a : A) → r ≡ ok a → (s : S) → P s → Q a s)
      → ((x : Exc) → r ≡ raise x → (s : S) → P s → X x s)
      → Triple P (lift r) Q X
  Triple-lift (ok a) h k = record { run = λ e p. h a refl e.state p }
  Triple-lift (raise x) h k = record { run = λ e p. k x refl e.state p }

  pub Triple-request :
      (read : S → A) (write : S → S)
      → ((s : S) → P s → Q (read s) (write s))
      → ((x : Exc) (s : S) → P s → X x s × X x (write s))
      → Triple P (request read write) Q X
  unfolding request
  Triple-request read write h k = record {
    run = λ e p. request-Ends P Q X read write e.state e.outcomes p h k;
  }

  pub Triple-if :
      (b : Bool) (m n : Action S A)
      → (b ≡ true → Triple P m Q X)
      → (b ≡ false → Triple P n Q X)
      → Triple P (if b then m else n) Q X
  Triple-if true m n h k = h refl
  Triple-if false m n h k = k refl

  pub Triple-catch :
      (Y : Exc → S → Type 0) (m : Action S A) (h : Exc → Action S A)
      → Triple P m Q Y
      → ((x : Exc) → Triple (Y x) (h x) Q X)
      → Triple P (catch m h) Q X
  Triple-catch Y m h t k = record { run = λ e p. handle-Ends Y Q X (m e).0 (m e).1 h (t.run e p) k }

pub Triple-modify :
    {S : Type 0} {P : S → Type 0} {Q : Unit {0} → S → Type 0} {X : Exc → S → Type 0} (f : S → S)
    → ((s : S) → P s → Q tt (f s))
    → Triple P (modify f) Q X
Triple-modify f h = record { run = λ e p. h e.state p }

module _ {S A B : Type 0} {P : S → Type 0} {Q : B → S → Type 0} {X : Exc → S → Type 0} where
  pub Triple-bind :
      (R : A → S → Type 0) (m : Action S A) (f : A → Action S B)
      → Triple P m R X
      → ((a : A) → Triple (R a) (f a) Q X)
      → Triple P (m >>= f) Q X
  Triple-bind R m f t k = record {
    run = λ e p. continue-Ends R Q X (m e).0 (m e).1 f (t.run e p) k;
  }

module _ {S A : Type 0} {P P' : S → Type 0} {Q Q' : A → S → Type 0} {X X' : Exc → S → Type 0} where
  -- a stronger condition before, and weaker ones after
  pub Triple-weaken :
      (m : Action S A)
      → ((s : S) → P' s → P s)
      → ((a : A) (s : S) → Q a s → Q' a s)
      → ((x : Exc) (s : S) → X x s → X' x s)
      → Triple P m Q X
      → Triple P' m Q' X'
  Triple-weaken m p q x t = record {
    run = λ e h. Ends-mono Q Q' X X' (m e).0 (m e).1 q x (t.run e (p e.state h));
  }

-- A condition that an action keeps, however it ends.
abbrev pub Keeps : {S A : Type 0} → (S → Type 0) → Action S A → Type 0
Keeps P m = Triple P m (λ _. P) (λ _. P)

-- A fact that does not speak of the state is at hand for the whole action.
pub Triple-given :
    {S A T : Type 0} {P : S → Type 0} {Q : A → S → Type 0} {X : Exc → S → Type 0} (m : Action S A)
    → (T → Triple P m Q X)
    → Triple (λ s. P s × T) m Q X
Triple-given m f = record { run = λ e p. (f p.1).run e p.0 }

-- what holds however an action ends
pub Ends-state :
    {S A : Type 0} (P : S → Type 0) (r : Result A) (e : Env S)
    → Ends (λ _. P) (λ _. P) (r, e)
    → P e.state
Ends-state P (ok a) e p = p
Ends-state P (raise x) e p = p
