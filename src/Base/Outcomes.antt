-- ===== src/Base/Outcomes.antt =====
-- How a piece of Go code ends: with a value, in a run-time panic (a nil dereference, a failed type
-- assertion, a closed channel, a division by zero, an index out of range), or waiting on a channel.
use Prim.Native.String.{String}
use mathlib.Core.Bool.{Bool, true, false}
use relayer2_public.Base.Tests.{if◌then◌else◌}
use mathlib.Core.Path.{◌≡◌, refl, subst}
use mathlib.Core.Option.{Option, none, some}

pub data Run {ℓ} (A : Type ℓ) : Type ℓ where
  done : A → Run A
  panic : Run A
  blocked : Run A

infixl 5 ◌>>=◌ ◌>>◌
abbrev pub ◌>>=◌ {ℓ κ} : {A : Type ℓ} {B : Type κ} → Run A → (A → Run B) → Run B
done a >>= f = f a
panic >>= f = panic
blocked >>= f = blocked

abbrev pub ◌>>◌ {ℓ} : {B : Type ℓ} → Run (Unit {0}) → Run B → Run B
m >> k = m >>= λ _. k

-- The dereference of a pointer, or a type assertion without its second result.
abbrev pub deref {ℓ} : {A : Type ℓ} → Option A → Run A
deref none = panic
deref (some a) = done a

-- A Go call with an error result; an error is known by its text.
pub data Outcome {ℓ} (A : Type ℓ) : Type ℓ where
  ok : A → Outcome A
  err : String → Outcome A

-- The code ends without panic and without waiting, in a value with the property.
abbrev pub Returns {ℓ} : {A : Type ℓ} → (A → Type 0) → Run A → Type 0
Returns P (done a) = P a
Returns P panic = ⊥
Returns P blocked = ⊥

-- Each value in which the code can end has the property.
abbrev pub Keeps {ℓ} : {A : Type ℓ} → (A → Type 0) → Run A → Type 0
Keeps P (done a) = P a
Keeps P panic = Unit
Keeps P blocked = Unit

-- A bind returns if its parts do.
pub Returns-bind {ℓ κ} :
    {A : Type ℓ} {B : Type κ} (P : A → Type 0) (Q : B → Type 0) (m : Run A) (f : A → Run B)
    → Returns P m
    → ((a : A) → P a → Returns Q (f a))
    → Returns Q (m >>= f)
Returns-bind P Q (done a) f h k = k a h
Returns-bind P Q panic f h k = elim h [ ]
Returns-bind P Q blocked f h k = elim h [ ]

pub Keeps-bind {ℓ κ} :
    {A : Type ℓ} {B : Type κ} (P : A → Type 0) (Q : B → Type 0) (m : Run A) (f : A → Run B)
    → Keeps P m
    → ((a : A) → P a → Keeps Q (f a))
    → Keeps Q (m >>= f)
Keeps-bind P Q (done a) f h k = k a h
Keeps-bind P Q panic f h k = tt
Keeps-bind P Q blocked f h k = tt

pub Keeps-any {ℓ} : {A : Type ℓ} (m : Run A) → Keeps (λ _. Unit) m
Keeps-any (done a) = tt
Keeps-any panic = tt
Keeps-any blocked = tt

pub Keeps-value {ℓ} :
    {A : Type ℓ} (P : A → Type 0) (m : Run A) (a : A) → Keeps P m → m ≡ done a → P a
Keeps-value P m a h e = subst (Keeps P) e h

-- Two continuations that agree give the same.
pub bind-same {ℓ κ} :
    {A : Type ℓ} {B : Type κ} (m : Run A) (f g : A → Run B)
    → ((a : A) → f a ≡ g a)
    → (m >>= f) ≡ (m >>= g)
bind-same (done a) f g h = h a
bind-same panic f g h = refl
bind-same blocked f g h = refl

pub Returns-mono {ℓ} :
    {A : Type ℓ} (P Q : A → Type 0) (m : Run A) → Returns P m → ((a : A) → P a → Q a) → Returns Q m
Returns-mono P Q (done a) h k = k a h
Returns-mono P Q panic h k = h
Returns-mono P Q blocked h k = h

pub Keeps-mono {ℓ} :
    {A : Type ℓ} (P Q : A → Type 0) (m : Run A) → Keeps P m → ((a : A) → P a → Q a) → Keeps Q m
Keeps-mono P Q (done a) h k = k a h
Keeps-mono P Q panic h k = tt
Keeps-mono P Q blocked h k = tt

-- The code does not panic, and each value in which it can end has the property; it may wait.
abbrev pub Survives {ℓ} : {A : Type ℓ} → (A → Type 0) → Run A → Type 0
Survives P (done a) = P a
Survives P panic = ⊥
Survives P blocked = Unit

pub Survives-bind {ℓ κ} :
    {A : Type ℓ} {B : Type κ} (P : A → Type 0) (Q : B → Type 0) (m : Run A) (f : A → Run B)
    → Survives P m
    → ((a : A) → P a → Survives Q (f a))
    → Survives Q (m >>= f)
Survives-bind P Q (done a) f h k = k a h
Survives-bind P Q panic f h k = h
Survives-bind P Q blocked f h k = tt

pub Survives-if {ℓ} :
    {A : Type ℓ} (P : A → Type 0) (b : Bool) (m n : Run A)
    → Survives P m
    → Survives P n
    → Survives P (if b then m else n)
Survives-if P true m n h k = h
Survives-if P false m n h k = k

-- Both what each value has and that there is no panic.
pub Survives-Keeps {ℓ} :
    {A : Type ℓ} (P Q R : A → Type 0) (m : Run A)
    → Survives P m
    → Keeps Q m
    → ((a : A) → P a → Q a → R a)
    → Survives R m
Survives-Keeps P Q R (done a) h k f = f a h k
Survives-Keeps P Q R panic h k f = h
Survives-Keeps P Q R blocked h k f = tt

pub Returns-Survives {ℓ} : {A : Type ℓ} (P : A → Type 0) (m : Run A) → Returns P m → Survives P m
Returns-Survives P (done a) h = h
Returns-Survives P panic h = h
Returns-Survives P blocked h = tt

pub Keeps-if {ℓ} :
    {A : Type ℓ} (P : A → Type 0) (b : Bool) (m n : Run A)
    → Keeps P m
    → Keeps P n
    → Keeps P (if b then m else n)
Keeps-if P true m n h k = h
Keeps-if P false m n h k = k

pub Survives-mono {ℓ} :
    {A : Type ℓ} (P Q : A → Type 0) (m : Run A)
    → Survives P m
    → ((a : A) → P a → Q a)
    → Survives Q m
Survives-mono P Q (done a) h k = k a h
Survives-mono P Q panic h k = h
Survives-mono P Q blocked h k = tt
