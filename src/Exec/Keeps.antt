-- ===== src/Exec/Keeps.antt =====
-- Invariants: an action keeps `P` whether it returns or raises. `search keeps_rules` walks a block.
use linux_cmnd.Prelude.{Bool, true, false, if◌then◌else◌}
use linux_cmnd.Result.{Error, Result, ok, err}
use linux_cmnd.Exec.{Exec, pure, throw, lift, catch, resume, ◌>>=◌, refuse, when}
use linux_cmnd.Exec.Triple.{Triple, Settles}

pub record Keeps {S A : Type 0} (P : S → Type 0) (m : Exec S A) : Type 0 where
  pub kept : (s : S) → P s → P (m s).1

module _ {S A : Type 0} {P : S → Type 0} where
  pub pure-Keeps : (a : A) → Keeps P (pure a)
  unfolding pure
  pure-Keeps a = record { kept = λ s h. h }

  pub throw-Keeps : (e : Error) → Keeps P (throw {A = A} e)
  unfolding throw
  throw-Keeps e = record { kept = λ s h. h }

  pub lift-Keeps : (r : Result A) → Keeps P (lift r)
  unfolding lift
  lift-Keeps r = record { kept = λ s h. h }

  pub if-Keeps : (b : Bool) (m n : Exec S A) → Keeps P m → Keeps P n → Keeps P (if b then m else n)
  if-Keeps true m n km kn = km
  if-Keeps false m n km kn = kn

-- What a handler or the rest of a block does with a result that is at hand.
module _ {S A : Type 0} (P : S → Type 0) where
  caught :
      (handler : Error → Exec S A) (r : Result A) (t : S)
      → ((e : Error) → Keeps P (handler e))
      → P t
      → P (catch (λ _. (r, t)) handler t).1
  unfolding catch
  caught handler (ok a) t k h = h
  caught handler (err e) t k h = (k e).kept t h

  resumed :
      {B : Type 0} (f : A → Exec S B) (r : Result A) (t : S)
      → ((a : A) → Keeps P (f a))
      → P t
      → P (resume r f t).1
  resumed f (ok a) t k h = (k a).kept t h
  resumed f (err e) t k h = h

  settled :
      (R : Error → S → Type 0) (r : Result A) (t : S)
      → ((e : Error) → P t → R e t)
      → P t
      → Settles (λ _ s. P s) R r t
  settled R (ok a) t k h = h
  settled R (err e) t k h = k e h

module _ {S A : Type 0} {P : S → Type 0} where
  pub catch-Keeps :
      (m : Exec S A) (handler : Error → Exec S A)
      → Keeps P m
      → ((e : Error) → Keeps P (handler e))
      → Keeps P (catch m handler)
  unfolding catch
  catch-Keeps m handler km kh = record {
    kept = λ s h. let (r, t) = m s in caught P handler r t kh (km.kept s h);
  }

  -- An invariant as a triple, where the invariant gives what an exception has to leave.
  pub Keeps-Triple :
      (m : Exec S A) (R : Error → S → Type 0)
      → ((e : Error) (s : S) → P s → R e s)
      → Keeps P m
      → Triple P m (λ _ s. P s) R
  Keeps-Triple m R k km = record {
    run = λ s h. settled P R (m s).0 (m s).1 (λ e. k e (m s).1) (km.kept s h);
  }

-- What an action does and what it keeps, at once.
module _ {S A : Type 0} (Q : A → S → Type 0) (R : Error → S → Type 0) (K : S → Type 0) where
  kept_too : (r : Result A) (t : S) → K t → Settles Q R r t → Settles (λ a s. Q a s × K s) R r t
  kept_too (ok a) t k h = (h, k)
  kept_too (err e) t k h = h

module _ {S A : Type 0} {P : S → Type 0} {Q : A → S → Type 0} {R : Error → S → Type 0}
    {K : S → Type 0} where
  pub Triple-Keeping :
      (m : Exec S A) → Keeps K m → Triple P m Q R → Triple (λ s. P s × K s) m (λ a s. Q a s × K s) R
  Triple-Keeping m k h = record {
    run = λ s (p, i). kept_too Q R K (m s).0 (m s).1 (k.kept s i) (h.run s p);
  }

module _ {S A B : Type 0} {P : S → Type 0} where
  pub bind-Keeps :
      (m : Exec S A) (f : A → Exec S B) → Keeps P m → ((a : A) → Keeps P (f a)) → Keeps P (m >>= f)
  unfolding ◌>>=◌
  bind-Keeps m f km kf = record {
    kept = λ s h. let (r, t) = m s in resumed P f r t kf (km.kept s h);
  }

module _ {S : Type 0} {P : S → Type 0} where
  pub refuse-Keeps : (b : Bool) (e : Error) → Keeps P (refuse b e)
  refuse-Keeps true e = throw-Keeps e
  refuse-Keeps false e = pure-Keeps tt

  pub when-Keeps : (b : Bool) (m : Exec S (Unit {0})) → Keeps P m → Keeps P (when b m)
  when-Keeps true m km = km
  when-Keeps false m km = pure-Keeps tt

pub ruleset keeps_rules = (
  pure-Keeps, throw-Keeps, lift-Keeps, if-Keeps, catch-Keeps, bind-Keeps, refuse-Keeps, when-Keeps,
)
