-- ===== src/Ovsdb/Outcome.antt =====
-- What the codec answers: a value, an error of the store, or any other error.
use proxmox_ovn.Prelude.{◌≡◌, refl, Bool, true, false, Option, none, some, List, [], ◌∷◌, arith}
use proxmox_ovn.Result.{Error, Check, ok, err}

-- `refused` is a *controlstore.Error or a field error; `malformed` is an error of fmt.Errorf.
pub data Failure : Type 0 where
  malformed : Failure
  refused : Error → Failure

pub data Outcome {ℓ} (A : Type ℓ) : Type ℓ where
  done : A → Outcome A
  failed : Failure → Outcome A

infixl 10 ◌>>=◌ ◌>>◌
abbrev pub ◌>>=◌ {ℓ μ} : {A : Type ℓ} {B : Type μ} → Outcome A → (A → Outcome B) → Outcome B
done x >>= go = go x
failed e >>= go = failed e

abbrev pub ◌>>◌ {ℓ κ} : {A : Type ℓ} {B : Type κ} → Outcome A → Outcome B → Outcome B
m >> k = m >>= λ _. k

-- if b { return e }
abbrev pub unless : Bool → Failure → Outcome (Unit {0})
unless true e = failed e
unless false e = done tt

abbrev pub or_failed {ℓ} : {A : Type ℓ} → Option A → Failure → Outcome A
or_failed none e = failed e
or_failed (some a) e = done a

-- A check of the model, wrapped with %w.
abbrev pub checked : Check → Outcome (Unit {0})
checked (ok tt) = done tt
checked (err e) = failed (refused e)

-- A loop that collects what each element gives and stops at the first error.
abbrev pub collect {ℓ μ} : {A : Type ℓ} {B : Type μ} → (A → Outcome B) → List A → Outcome (List B)
collect f [] = done []
collect f (x ∷ xs) = let rest = collect f xs in f x >>= λ y. rest >>= λ ys. done (y ∷ ys)

-- Inversion of a successful step.
pub bind-done {ℓ μ} :
    {A : Type ℓ} {B : Type μ} (m : Outcome A) (go : A → Outcome B) {y : B}
    → (m >>= go) ≡ done y
    → (x : A) × (m ≡ done x) × (go x ≡ done y)
bind-done (done x) go h = (x, refl, h)
bind-done (failed e) go h = cc

pub done_inj {ℓ} : {A : Type ℓ} {a b : A} → Outcome.done a ≡ done b → a ≡ b
done_inj h = ground arith

pub unless-done : (b : Bool) (e : Failure) {u : Unit {0}} → unless b e ≡ done u → b ≡ false
unless-done true e h = cc
unless-done false e h = refl

-- What holds of every value that a computation gives.
abbrev pub Gives : {A : Type 0} → (A → Type 0) → Outcome A → Type 0
Gives {A = A} P m = (y : A) → m ≡ done y → P y

pub Gives-bind :
    {A B : Type 0} {P : B → Type 0} (m : Outcome A) (go : A → Outcome B)
    → ((x : A) → Gives P (go x))
    → Gives P (m >>= go)
Gives-bind m go each y h = let (x, e, e') = bind-done m go h in each x y e'
