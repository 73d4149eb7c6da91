-- ===== src/Exec.antt =====
-- Code that calls the outside world and may raise: an action takes a state and gives it back beside
-- its value or its exception, since what was done before a raise stays done.
pub mod Triple
pub mod Keeps
use linux_cmnd.Prelude.{Bool, true, false}
use linux_cmnd.Result.{Error, Result, ok, err}

abbrev pub Exec : Type 0 → Type 0 → Type 0
Exec S A = S → Result A × S

module _ {S A : Type 0} where
  unfoldable pub pure : A → Exec S A
  pure a s = (ok a, s)

  unfoldable pub throw : Error → Exec S A
  throw e s = (err e, s)

  -- A computation that touches no state.
  unfoldable pub lift : Result A → Exec S A
  lift r s = (r, s)

  -- `try: m except Exception as e: handler(e)`
  unfoldable pub catch : Exec S A → (Error → Exec S A) → Exec S A
  catch m handler s = let (r, t) = m s in elim r [ ok a ↦ (ok a, t) | err e ↦ handler e t ]

module _ {S A B : Type 0} where
  abbrev pub resume : Result A → (A → Exec S B) → Exec S B
  resume (ok a) f s = f a s
  resume (err e) f s = (err e, s)

  infixl 10 ◌>>=◌ ◌>>◌
  unfoldable pub ◌>>=◌ : Exec S A → (A → Exec S B) → Exec S B
  ◌>>=◌ m f s = let (r, t) = m s in resume r f t

  abbrev pub ◌>>◌ : Exec S A → Exec S B → Exec S B
  m >> k = m >>= λ _. k

-- The state, and an assignment to it.
unfoldable pub get : {S : Type 0} → Exec S S
get s = (ok s, s)

unfoldable pub modify : {S : Type 0} → (S → S) → Exec S (Unit {0})
modify f s = (ok tt, f s)

-- `if bad: raise e`
abbrev pub refuse : {S : Type 0} → Bool → Error → Exec S (Unit {0})
refuse true e = throw e
refuse false e = pure tt

-- `if b: m`
abbrev pub when : {S : Type 0} → Bool → Exec S (Unit {0}) → Exec S (Unit {0})
when true m = m
when false m = pure tt
