-- ===== src/Exec.antt =====
-- Code that changes a state, reads from the environment, and may run into undefined behaviour or a
-- failed assertion. What was written before such a fault stays written.
pub mod Keeps
use single_terminal_login_sy.Base.{◌≡◌, ap, Bool, true, false, Option, none, some}

-- Why a run does not go on: the C++ standard leaves it undefined, `assert` aborts it, or `exit` is
-- called.
pub data Fault : Type 0 where
  null_pointer out_of_bounds use_after_free wild_pointer signed_overflow assertion exited : Fault

pub data Outcome {ℓ} (A : Type ℓ) : Type ℓ where
  done : A → Outcome A
  fault : Fault → Outcome A

-- What a run gives, through a function.
abbrev pub on_done : {A B : Type 0} → (A → B) → Outcome A → Outcome B
on_done f (done a) = done (f a)
on_done f (fault e) = fault e

abbrev pub Exec {ℓ} : Type ℓ → Type ℓ → Type ℓ
Exec S A = S → Outcome A × S

module _ {ℓ} {S A : Type ℓ} where
  abbrev pub pure : A → Exec S A
  pure a s = (done a, s)

  abbrev pub crash : Fault → Exec S A
  crash e s = (fault e, s)

module _ {ℓ} {S A B : Type ℓ} where
  abbrev pub continue : Outcome A × S → (A → Exec S B) → Outcome B × S
  continue (done a, s) f = f a s
  continue (fault e, s) f = (fault e, s)

  -- A run goes on from where its first part returned.
  pub continue_of :
      {o : Outcome A × S} {a : A} {s : S} (f : A → Exec S B)
      → o ≡ (done a, s)
      → continue o f ≡ f a s
  continue_of f e = ap (λ o. continue o f) e

  infixl 10 ◌>>=◌ ◌>>◌
  abbrev pub ◌>>=◌ : Exec S A → (A → Exec S B) → Exec S B
  ◌>>=◌ m f s = continue (m s) f

  abbrev pub ◌>>◌ : Exec S A → Exec S B → Exec S B
  m >> n = m >>= λ _. n

-- `assert(b)`
abbrev pub require : {S : Type 0} → Bool → Exec S (Unit {0})
require true = pure tt
require false = crash assertion

-- A use of a pointer that may be NULL.
abbrev pub deref : {S A : Type 0} → Option A → Exec S A
deref none = crash null_pointer
deref (some a) = pure a
