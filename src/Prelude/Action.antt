-- ===== src/Prelude/Action.antt =====
-- Methods that mutate shared state, raise, and call services that may fail. The world decides
-- beforehand how each request to a service will end.
pub mod Triple
use mathlib.Core.List.{List, [], ◌∷◌}
use wealthfinder.Prelude.Result.{Exc, Result, ok, raise}

-- A request is answered, is refused with an exception, or takes effect and the answer is lost.
pub data Outcome : Type 0 where
  answered : Outcome
  refused lost : Exc → Outcome

pub record Env (S : Type 0) : Type 0 where
  pub state : S
  pub outcomes : List Outcome

abbrev pub Action : Type 0 → Type 0 → Type 0
Action S A = Env S → Result A × Env S

module _ {S A : Type 0} where
  abbrev pub return : A → Action S A
  return a e = (ok a, e)

  abbrev pub fail : Exc → Action S A
  fail x e = (raise x, e)

  abbrev pub lift : Result A → Action S A
  lift r e = (r, e)

  -- a read of this process's own state
  abbrev pub gets : (S → A) → Action S A
  gets f e = (ok (f e.state), e)

abbrev pub modify : {S : Type 0} → (S → S) → Action S (Unit {0})
modify f e = (ok tt, record e { state = f e.state })

module _ {S A : Type 0} where
  -- the outcomes that are left when none is are answers
  abbrev pub end_request : (S → A) → (S → S) → S → List Outcome → Result A × Env S
  end_request read write s [] = (ok (read s), record { state = write s; outcomes = [] })
  end_request read write s (answered ∷ os) =
      (ok (read s), record { state = write s; outcomes = os })
  end_request read write s (refused x ∷ os) = (raise x, record { state = s; outcomes = os })
  end_request read write s (lost x ∷ os) = (raise x, record { state = write s; outcomes = os })

  -- A request that answers `read` of the state and changes it by `write`.
  unfoldable pub request : (S → A) → (S → S) → Action S A
  request read write e = end_request read write e.state e.outcomes

module _ {S A B : Type 0} where
  abbrev pub continue : Result A → (A → Action S B) → Action S B
  continue (ok a) f e = f a e
  continue (raise x) f e = (raise x, e)

  infixl 5 ◌>>=◌ ◌>>◌
  abbrev pub ◌>>=◌ : Action S A → (A → Action S B) → Action S B
  ◌>>=◌ m f e = let (r, e') = m e in continue r f e'

  abbrev pub ◌>>◌ : Action S A → Action S B → Action S B
  m >> k = m >>= λ _. k

module _ {S A : Type 0} where
  abbrev pub handle : Result A → (Exc → Action S A) → Action S A
  handle (ok a) h e = (ok a, e)
  handle (raise x) h e = h x e

  -- `try: m  except: h`, where the handler raises again what it does not catch
  abbrev pub catch : Action S A → (Exc → Action S A) → Action S A
  catch m h e = let (r, e') = m e in handle r h e'

-- `try: m  finally: s = f(s)`
abbrev pub finally : {S A : Type 0} → Action S A → (S → S) → Action S A
finally m f e = let (r, e') = m e in (r, record e' { state = f e'.state })
