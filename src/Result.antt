-- ===== src/Result.antt =====
-- The errors of the control plane and fallible results. A store error keeps its kind
-- (internal/controlstore/store.go) and a validation error its field; message texts are dropped,
-- and a field inside a list is named without its index.
use proxmox_ovn.Prelude.{
  ◌≡◌, refl, subst, if◌then◌else◌, inl, inr, Bool, true, false, List, [], ◌∷◌, Option, none, some,
  arith, any, In, Bool-cases,
}
use proxmox_ovn.Text.{Text}

pub data Error : Type 0 where
  not_found already_exists conflict precondition idempotency_conflict cancelled : Error
  invalid : Text → Error

pub data Result {ℓ} (A : Type ℓ) : Type ℓ where
  ok : A → Result A
  err : Error → Result A

-- `error`, where `ok tt` is nil.
abbrev pub Check : Type 0
Check = Result (Unit {0})

infixl 10 ◌>>=◌ ◌>>◌
abbrev pub ◌>>=◌ {ℓ μ} : {A : Type ℓ} {B : Type μ} → Result A → (A → Result B) → Result B
ok x >>= go = go x
err e >>= go = err e

abbrev pub ◌>>◌ {ℓ κ} : {A : Type ℓ} {B : Type κ} → Result A → Result B → Result B
m >> k = m >>= λ _. k

-- if !b { return e }
abbrev pub guard : Bool → Error → Check
guard true e = ok tt
guard false e = err e

-- if b { return e }
abbrev pub refuse : Bool → Error → Check
refuse true e = err e
refuse false e = ok tt

abbrev pub or_fail {ℓ} : {A : Type ℓ} → Option A → Error → Result A
or_fail none e = err e
or_fail (some a) e = ok a

-- A loop that stops at the first error.
abbrev pub each {ℓ} : {A : Type ℓ} → (A → Result (Unit {0})) → List A → Result (Unit {0})
each f [] = ok tt
each f (x ∷ xs) = let rest = each f xs in f x >>= λ _. rest

-- err == nil
abbrev pub succeeds {ℓ} : {A : Type ℓ} → Result A → Bool
succeeds (ok a) = true
succeeds (err e) = false

-- Inversion of a successful step.
pub bind-ok {ℓ μ} :
    {A : Type ℓ} {B : Type μ} (m : Result A) (go : A → Result B) {y : B}
    → (m >>= go) ≡ ok y
    → (x : A) × (m ≡ ok x) × (go x ≡ ok y)
bind-ok (ok x) go h = (x, refl, h)
bind-ok (err e) go h = cc

pub then-ok {κ} :
    {B : Type κ} (m : Result (Unit {0})) (k : Result B) {b : B}
    → (m >> k) ≡ ok b
    → (m ≡ ok tt) × (k ≡ ok b)
then-ok (ok tt) k h = (refl, h)
then-ok (err e) k h = cc

pub ok_inj {ℓ} : {A : Type ℓ} {a b : A} → Result.ok a ≡ ok b → a ≡ b
ok_inj h = ground arith

-- A result in either branch.
pub answered :
    {A : Type 0} (P : A → Type 0) (b : Bool) (x y : A) {c : A}
    → (if b then Result.ok x else ok y) ≡ ok c
    → P x
    → P y
    → P c
answered P true x y h hx hy = subst P (ok_inj h) hx
answered P false x y h hx hy = subst P (ok_inj h) hy

pub guard-ok : (b : Bool) (e : Error) → guard b e ≡ ok tt → b ≡ true
guard-ok true e h = refl
guard-ok false e h = cc

pub refuse-ok : (b : Bool) (e : Error) → refuse b e ≡ ok tt → b ≡ false
refuse-ok true e h = cc
refuse-ok false e h = refl

pub or_fail-ok {ℓ} :
    {A : Type ℓ} (o : Option A) (e : Error) {a : A} → or_fail o e ≡ ok a → o ≡ some a
or_fail-ok none e h = cc
or_fail-ok (some a) e h = ground arith

-- A loop that succeeds has passed the element that a search finds.
pub each-any :
    {A : Type 0} (f : A → Check) (p : A → Bool) (xs : List A)
    → each f xs ≡ ok tt
    → any p xs ≡ true
    → (x : A) × (f x ≡ ok tt) × (p x ≡ true)
each-any f p [] h e = cc
each-any f p (x ∷ xs) h e =
    let (first, rest) = then-ok (f x) (each f xs) h in
    elim (Bool-cases (p x)) [
      | inl hit ↦ (x, first, hit)
      | inr miss ↦ each-any f p xs rest (ground arith)
    ]

-- A loop that succeeds has passed every element.
pub each-In :
    {A : Type 0} (f : A → Check) (xs : List A) (x : A) → each f xs ≡ ok tt → In x xs → f x ≡ ok tt
each-In f [] x h m = elim m [ ]
each-In f (y ∷ ys) x h (inl e) = rw (← e) (then-ok (f y) (each f ys) h).0
each-In f (y ∷ ys) x h (inr m) = each-In f ys x (then-ok (f y) (each f ys) h).1 m
