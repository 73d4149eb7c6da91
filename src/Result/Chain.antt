-- ===== src/Result/Chain.antt =====
-- The same bind and guard, shut, for long blocks whose proofs follow them by rules.
use linux_cmnd.Prelude.{◌≡◌, refl, subst, Bool, true, false, if◌then◌else◌}
use linux_cmnd.Result.{Error, Result, ok, err}

infixl 5 ◌>>=◌ ◌>>◌
unfoldable pub ◌>>=◌ : {A B : Type 0} → Result A → (A → Result B) → Result B
ok a >>= f = f a
err e >>= f = err e

abbrev pub ◌>>◌ : {B : Type 0} → Result (Unit {0}) → Result B → Result B
m >> k = m >>= λ _. k

-- `if bad: raise e`
unfoldable pub refuse : Bool → Error → Result (Unit {0})
refuse true e = err e
refuse false e = ok tt

-- `P` of the value, if there is one. The rules follow a block from above, and hand over what each
-- step has returned.
pub record Ensures {A : Type 0} (P : A → Type 0) (r : Result A) : Type 0 where
  pub holds : (a : A) → r ≡ ok a → P a

module _ {A : Type 0} {P : A → Type 0} where
  pub Ensures-ok : (a : A) → P a → Ensures P (ok a)
  Ensures-ok a h = record { holds = λ b e. subst P (ok_injective a b e) h }
    where
      ok_injective : (a b : A) → ok a ≡ ok b → a ≡ b
      ok_injective a b e = cc

  pub Ensures-bind :
      {B : Type 0} (m : Result B) (f : B → Result A)
      → ((b : B) → m ≡ ok b → Ensures P (f b))
      → Ensures P (m >>= f)
  unfolding ◌>>=◌
  Ensures-bind (ok b) f k = k b refl
  Ensures-bind (err e) f k = record { holds = λ a h. absurd (cc h) }

  pub Ensures-refuse :
      (test : Bool) (e : Error) (k : Result A)
      → (test ≡ false → Ensures P k)
      → Ensures P (refuse test e >> k)
  unfolding ◌>>=◌ refuse
  Ensures-refuse true e k h = record { holds = λ a h. absurd (cc h) }
  Ensures-refuse false e k h = h refl

  pub Ensures-err : (e : Error) → Ensures P (err e)
  Ensures-err e = record { holds = λ a h. absurd (cc h) }

  pub Ensures-if :
      (b : Bool) (m n : Result A) → Ensures P m → Ensures P n → Ensures P (if b then m else n)
  Ensures-if true m n hm hn = hm
  Ensures-if false m n hm hn = hn

  -- The same, with what the test has shown.
  pub Ensures-cases :
      (b : Bool) (m n : Result A)
      → (b ≡ true → Ensures P m)
      → (b ≡ false → Ensures P n)
      → Ensures P (if b then m else n)
  Ensures-cases true m n hm hn = hm refl
  Ensures-cases false m n hm hn = hn refl
