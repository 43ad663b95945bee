-- ===== src/Exec/Keeps.antt =====
-- Code that leaves a property of the state in force however it ends, with a rule for each way in
-- which code is put together.
use single_terminal_login_sy.Base.{Bool, true, false, Option, none, some, if◌then◌else◌}
use single_terminal_login_sy.Exec.{
  Exec, Outcome, done, fault, Fault, pure, crash, continue, ◌>>=◌, ◌>>◌, require, deref,
}

pub record Keeps {S A : Type 0} (P : S → Type 0) (m : Exec S A) : Type 0 where
  pub after : (s : S) → P s → P (m s).1

module _ {S : Type 0} {P : S → Type 0} where
  pub pure-Keeps : {A : Type 0} (a : A) → Keeps P (pure a)
  pure-Keeps a = record { after = λ s p. p }

  pub crash-Keeps : {A : Type 0} (e : Fault) → Keeps P (crash {A = A} e)
  crash-Keeps e = record { after = λ s p. p }

  pub if-Keeps :
      {A : Type 0} (b : Bool) (m n : Exec S A)
      → Keeps P m
      → Keeps P n
      → Keeps P (if b then m else n)
  if-Keeps true m n km kn = km
  if-Keeps false m n km kn = kn

  pub require-Keeps : (b : Bool) → Keeps P (require b)
  require-Keeps true = pure-Keeps tt
  require-Keeps false = crash-Keeps Fault.assertion

  pub deref-Keeps : {A : Type 0} (o : Option A) → Keeps P (deref o)
  deref-Keeps none = crash-Keeps Fault.null_pointer
  deref-Keeps (some a) = pure-Keeps a

  pub continue-Keeps :
      {A B : Type 0} (o : Outcome A × S) (f : A → Exec S B)
      → P o.1
      → ((a : A) → Keeps P (f a))
      → P (continue o f).1
  continue-Keeps (done a, s) f p kf = (kf a).after s p
  continue-Keeps (fault e, s) f p kf = p

  pub bind-Keeps :
      {A B : Type 0} (m : Exec S A) (f : A → Exec S B)
      → Keeps P m
      → ((a : A) → Keeps P (f a))
      → Keeps P (m >>= f)
  bind-Keeps m f km kf = record { after = λ s p. continue-Keeps (m s) f (km.after s p) kf }

  pub then-Keeps :
      {A B : Type 0} (m : Exec S A) (n : Exec S B) → Keeps P m → Keeps P n → Keeps P (m >> n)
  then-Keeps m n km kn = bind-Keeps m (λ _. n) km (λ _. kn)

pub ruleset keeps_rules =
    (pure-Keeps, crash-Keeps, if-Keeps, require-Keeps, deref-Keeps, bind-Keeps, then-Keeps)
