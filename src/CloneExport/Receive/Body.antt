-- ===== src/CloneExport/Receive/Body.antt =====
-- The loop of src/cmnd_linux/clone_export.py that reads the body of an upload.
use linux_cmnd.Prelude.{
  ℕ, zero, suc, ◌+◌, ◌-◌, ◌≤◌, ◌≡◌, refl, ap, subst, ◌∙◌, Bool, true, false, Option, some, [], ◌∷◌,
  ◌++◌, arith, ◌==◌, length, length-append, if◌then◌else◌,
}
use linux_cmnd.Prelude.Chars.{Text}
use linux_cmnd.Result.{Error, Result, ok, err}
use linux_cmnd.Result.Chain.{Ensures, Ensures-ok, Ensures-err}
use linux_cmnd.CloneExport.Receive.{Reader, receive_body, is_empty, min}

-- The loop has come to an end, and what it has read is of the size.
pub record IsWhole (size : ℕ) (r : Option (Result Text)) : Type 0 where
  pub outcome : Result Text
  pub ended : r ≡ some outcome
  pub whole : Ensures (λ body. length body ≡ size) outcome

IsWhole-if :
    (size : ℕ) (b : Bool) (m n : Option (Result Text))
    → (b ≡ true → IsWhole size m)
    → (b ≡ false → IsWhole size n)
    → IsWhole size (if b then m else n)
IsWhole-if size true m n hm hn = hm refl
IsWhole-if size false m n hm hn = hn refl

IsWhole-ok : (size : ℕ) (body : Text) → length body ≡ size → IsWhole size (some (ok body))
IsWhole-ok size body h = record { outcome = ok body; ended = refl; whole = Ensures-ok body h }

IsWhole-err : (size : ℕ) (e : Error) → IsWhole size (some (err e))
IsWhole-err size e = record { outcome = err e; ended = refl; whole = Ensures-err e }

min_le : (a b : ℕ) → min a b ≤ b
min_le a b = ground arith

length-is_empty : (t : Text) → is_empty t ≡ false → 1 ≤ length t
length-is_empty [] h = cc
length-is_empty (c ∷ cs) h = ground arith

all_read : (a remaining : ℕ) → (remaining == 0) ≡ true → a ≡ a + remaining
all_read a remaining h = ground arith

module _ (reader : Reader) (bounded : (n : ℕ) (t : Text) → length (reader.read1 n t) ≤ n) where
  -- With fuel for each byte that remains, the loop ends; a body that it returns has all bytes that
  -- were announced, since a short or late one raises. A read returns no more than its limit.
  pub receive_body-IsWhole :
      (fuel remaining : ℕ) (before : Text)
      → remaining ≤ fuel
      → IsWhole (length before + remaining) (receive_body reader fuel remaining before)
  unfolding receive_body
  receive_body-IsWhole zero remaining before h =
      IsWhole-if _ (remaining == 0) _ _ (λ z. IsWhole-ok _ before (all_read _ remaining z))
        (λ z. absurd (not_zero remaining h z))
    where
      not_zero : (n : ℕ) → n ≤ 0 → (n == 0) ≡ false → ⊥
      not_zero n h z = ground arith
  receive_body-IsWhole (suc fuel) remaining before h =
      let chunk = reader.read1 (min 65536 remaining) before in
      IsWhole-if _ (remaining == 0) _ _ (λ z. IsWhole-ok _ before (all_read _ remaining z))
        λ _.
          IsWhole-if _ (reader.late before) _ _ (λ _. IsWhole-err _ _)
            λ _.
              IsWhole-if _ (is_empty chunk) _ _ (λ _. IsWhole-err _ _)
                λ some_read.
                  read_on chunk
                    (receive_body-IsWhole fuel (remaining - length chunk) (before ++ chunk))
                    (length-is_empty chunk some_read)
                    (le_trans (bounded (min 65536 remaining) before) (min_le 65536 remaining))
    where
      le_trans : {a b c : ℕ} → a ≤ b → b ≤ c → a ≤ c
      le_trans h k = omega arith

      summed : (b c r : ℕ) → c ≤ r → b + c + (r - c) ≡ b + r
      summed b c r h = omega arith

      read_on :
          (chunk : Text)
          → (remaining - length chunk ≤ fuel
              → IsWhole
                  (length (before ++ chunk) + (remaining - length chunk))
                  (receive_body reader fuel (remaining - length chunk) (before ++ chunk)))
          → 1 ≤ length chunk
          → length chunk ≤ remaining
          → IsWhole
              (length before + remaining)
              (receive_body reader fuel (remaining - length chunk) (before ++ chunk))
      read_on chunk later some_read few =
          subst
            (λ size.
              IsWhole size (receive_body reader fuel (remaining - length chunk) (before ++ chunk)))
            (ap (λ l. l + (remaining - length chunk)) (length-append before chunk)
              ∙ summed (length before) (length chunk) remaining few)
            (later (omega arith))
