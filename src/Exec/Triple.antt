-- ===== src/Exec/Triple.antt =====
-- Triples: from a state that meets `P` an action returns with `Q`, or raises with `R`. One rule for
-- each way to build an action.
use linux_cmnd.Prelude.{◌≡◌, refl, Bool, true, false, if◌then◌else◌}
use linux_cmnd.Result.{Error, Result, ok, err}
use linux_cmnd.Exec.{Exec, pure, throw, lift, get, modify, catch, resume, ◌>>=◌, refuse, when}

module _ {S A : Type 0} where
  abbrev pub Settles : (A → S → Type 0) → (Error → S → Type 0) → Result A → S → Type 0
  Settles Q R (ok a) s = Q a s
  Settles Q R (err e) s = R e s

  pub record Triple (P : S → Type 0) (m : Exec S A) (Q : A → S → Type 0) (R : Error → S → Type 0)
      : Type 0 where
    pub run : (s : S) → P s → Settles Q R (m s).0 (m s).1

-- What the rules need of a result that is at hand.
module _ {S A : Type 0} (Q : A → S → Type 0) (R : Error → S → Type 0) where
  settle_lift :
      (r : Result A) (s : S)
      → ((a : A) → r ≡ ok a → Q a s)
      → ((e : Error) → r ≡ err e → R e s)
      → Settles Q R r s
  settle_lift (ok a) s h k = h a refl
  settle_lift (err e) s h k = k e refl

  settle_catch :
      (handler : Error → Exec S A) (R' : Error → S → Type 0) (r : Result A) (t : S)
      → ((e : Error) → Triple (R' e) (handler e) Q R)
      → Settles Q R' r t
      → Settles Q R (catch (λ _. (r, t)) handler t).0 (catch (λ _. (r, t)) handler t).1
  unfolding catch
  settle_catch handler R' (ok a) t k h = h
  settle_catch handler R' (err e) t k h = (k e).run t h

module _ {S A B : Type 0} (Q : B → S → Type 0) (R : Error → S → Type 0) where
  settle_bind :
      (f : A → Exec S B) (M : A → S → Type 0) (r : Result A) (t : S)
      → ((a : A) → Triple (M a) (f a) Q R)
      → Settles M R r t
      → Settles Q R (resume r f t).0 (resume r f t).1
  settle_bind f M (ok a) t k h = (k a).run t h
  settle_bind f M (err e) t k h = h

module _ {S A : Type 0} (Q Q' : A → S → Type 0) (R R' : Error → S → Type 0) where
  settle_weaken :
      (r : Result A) (s : S)
      → ((a : A) (t : S) → Q' a t → Q a t)
      → ((e : Error) (t : S) → R' e t → R e t)
      → Settles Q' R' r s
      → Settles Q R r s
  settle_weaken (ok a) s q r h = q a s h
  settle_weaken (err e) s q r h = r e s h

module _ {S A : Type 0} {P : S → Type 0} {Q : A → S → Type 0} {R : Error → S → Type 0} where
  -- What the precondition says of no state may be used outside.
  pub Triple-assume :
      {F : Type 0} (m : Exec S A) → ((s : S) → P s → F) → (F → Triple P m Q R) → Triple P m Q R
  Triple-assume m f k = record { run = λ s p. (k (f s p)).run s p }

  pub Triple-pure : (a : A) → ((s : S) → P s → Q a s) → Triple P (pure a) Q R
  unfolding pure
  Triple-pure a h = record { run = h }

  pub Triple-throw : (e : Error) → ((s : S) → P s → R e s) → Triple P (throw {A = A} e) Q R
  unfolding throw
  Triple-throw e h = record { run = h }

  pub Triple-lift :
      (r : Result A)
      → ((s : S) (a : A) → r ≡ ok a → P s → Q a s)
      → ((s : S) (e : Error) → r ≡ err e → P s → R e s)
      → Triple P (lift r) Q R
  unfolding lift
  Triple-lift r h k = record {
    run = λ s p. settle_lift Q R r s (λ a q. h s a q p) (λ e q. k s e q p);
  }

  pub Triple-if :
      (b : Bool) (m n : Exec S A)
      → (b ≡ true → Triple P m Q R)
      → (b ≡ false → Triple P n Q R)
      → Triple P (if b then m else n) Q R
  Triple-if true m n km kn = km refl
  Triple-if false m n km kn = kn refl

  pub Triple-catch :
      (m : Exec S A) (handler : Error → Exec S A) (R' : Error → S → Type 0)
      → Triple P m Q R'
      → ((e : Error) → Triple (R' e) (handler e) Q R)
      → Triple P (catch m handler) Q R
  unfolding catch
  Triple-catch m handler R' km kh = record {
    run = λ s p. let (r, t) = m s in settle_catch Q R handler R' r t kh (km.run s p);
  }

module _ {S A B : Type 0} {P : S → Type 0} {Q : B → S → Type 0} {R : Error → S → Type 0} where
  pub Triple-bind :
      (m : Exec S A) (f : A → Exec S B) (M : A → S → Type 0)
      → Triple P m M R
      → ((a : A) → Triple (M a) (f a) Q R)
      → Triple P (m >>= f) Q R
  unfolding ◌>>=◌
  Triple-bind m f M km kf = record {
    run = λ s p. let (r, t) = m s in settle_bind Q R f M r t kf (km.run s p);
  }

module _ {S : Type 0} {P : S → Type 0} {R : Error → S → Type 0} where
  pub Triple-get : Triple P get (λ a t. P t × (t ≡ a)) R
  unfolding get
  Triple-get = record { run = λ t h. (h, refl) }

  -- The same, where the value is all that matters.
  pub Triple-read : Triple P get (λ _ t. P t) R
  unfolding get
  Triple-read = record { run = λ t h. h }

  pub Triple-modify :
      {Q : Unit {0} → S → Type 0} (f : S → S)
      → ((s : S) → P s → Q tt (f s))
      → Triple P (modify f) Q R
  unfolding modify
  Triple-modify f h = record { run = h }

module _ {S A : Type 0} {P P' : S → Type 0} {Q Q' : A → S → Type 0}
    {R R' : Error → S → Type 0} where
  pub Triple-weaken :
      (m : Exec S A)
      → ((s : S) → P s → P' s)
      → ((a : A) (s : S) → Q' a s → Q a s)
      → ((e : Error) (s : S) → R' e s → R e s)
      → Triple P' m Q' R'
      → Triple P m Q R
  Triple-weaken m p q r k = record {
    run = λ s h. settle_weaken Q Q' R R' (m s).0 (m s).1 q r (k.run s (p s h));
  }

module _ {S : Type 0} {P : S → Type 0} {R : Error → S → Type 0} where
  pub Triple-refuse :
      {Q : Unit {0} → S → Type 0} (b : Bool) (e : Error)
      → ((s : S) → b ≡ true → P s → R e s)
      → ((s : S) → b ≡ false → P s → Q tt s)
      → Triple P (refuse b e) Q R
  Triple-refuse true e h k = Triple-throw e (λ s p. h s refl p)
  Triple-refuse false e h k = Triple-pure tt (λ s p. k s refl p)

  pub Triple-when :
      {Q : Unit {0} → S → Type 0} (b : Bool) (m : Exec S (Unit {0}))
      → (b ≡ true → Triple P m Q R)
      → ((s : S) → b ≡ false → P s → Q tt s)
      → Triple P (when b m) Q R
  Triple-when true m h k = h refl
  Triple-when false m h k = Triple-pure tt (λ s p. k s refl p)
