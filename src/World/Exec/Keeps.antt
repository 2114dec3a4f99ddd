-- ===== src/World/Exec/Keeps.antt =====
-- What a method keeps, whether it returns or throws: one rule for each way to build a method.
use nest_quickfix.Prelude.{Bool, true, false, if◌then◌else◌}
use nest_quickfix.Result.{Result, ok, err, Error}
use nest_quickfix.World.Exec.{Exec, pure, throw, lift, gets, catch, handle, continue, ◌>>=◌}

-- `I` holds after `m` where it held before.
pub record Keeps {ℓ κ μ} {S : Type ℓ} {A : Type κ} (I : S → Type μ) (m : Exec S A)
    : Type (ℓ ⊔ μ) where
  pub after : (w : S) → I w → I (m w).1

-- A sequence, of which the rest runs only if the first part returns.
module _ {ℓ κ μ ν} {S : Type ℓ} {A : Type κ} {B : Type μ} {I : S → Type ν} where
  after_continue :
      (x : Result A × S) (f : A → Exec S B) → ((a : A) → Keeps I (f a)) → I x.1 → I (continue x f).1
  after_continue (err e, w) f rest i = i
  after_continue (ok a, w) f rest i = (rest a).after w i

  pub Keeps-bind :
      (first : Exec S A) (f : A → Exec S B)
      → Keeps I first
      → ((a : A) → Keeps I (f a))
      → Keeps I (first >>= f)
  unfolding ◌>>=◌
  Keeps-bind first f k rest = record {
    after = λ w i. after_continue (first w) f rest (k.after w i);
  }

module _ {ℓ κ μ} {S : Type ℓ} {A : Type κ} {I : S → Type μ} where
  after_handle :
      (x : Result A × S) (h : Error → Exec S A)
      → ((e : Error) → Keeps I (h e))
      → I x.1
      → I (handle x h).1
  after_handle (err e, w) h rest i = (rest e).after w i
  after_handle (ok a, w) h rest i = i

  pub Keeps-catch :
      (body : Exec S A) (h : Error → Exec S A)
      → Keeps I body
      → ((e : Error) → Keeps I (h e))
      → Keeps I (catch body h)
  unfolding catch
  Keeps-catch body h k rest = record { after = λ w i. after_handle (body w) h rest (k.after w i) }

  pub Keeps-if :
      (test : Bool) (then_do else_do : Exec S A)
      → Keeps I then_do
      → Keeps I else_do
      → Keeps I (if test then then_do else else_do)
  Keeps-if false _ _ ky kn = kn
  Keeps-if true _ _ ky kn = ky

  -- Methods that leave the state as it is.
  pub Keeps-lift : (x : Result A) → Keeps I (lift x)
  unfolding lift
  Keeps-lift x = record { after = λ w i. i }

  pub Keeps-throw : (e : Error) → Keeps I (throw {A = A} e)
  unfolding throw
  Keeps-throw e = record { after = λ w i. i }

  pub Keeps-gets : (read : S → A) → Keeps I (gets read)
  unfolding gets
  Keeps-gets read = record { after = λ w i. i }

  pub Keeps-pure : (x : A) → Keeps I (pure x)
  unfolding pure
  Keeps-pure x = record { after = λ w i. i }

pub ruleset keeps_rules =
    (Keeps-bind, Keeps-catch, Keeps-if, Keeps-lift, Keeps-throw, Keeps-gets, Keeps-pure)
