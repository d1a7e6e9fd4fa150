-- ===== src/Base/Run.antt =====
-- Code that may do what C leaves undefined: `none` is an access outside an array or through NULL.
use mathlib.Core.Path.{◌≡◌, refl}
use mathlib.Core.Option.{Option, none, some}

infixl 5 ◌>>=◌
abbrev pub ◌>>=◌ {ℓ κ} : {A : Type ℓ} {B : Type κ} → Option A → (A → Option B) → Option B
none >>= f = none
some a >>= f = f a

pub >>=-eq-some {ℓ κ} :
    {A : Type ℓ} {B : Type κ} (m : Option A) (f : A → Option B) {b : B}
    → (m >>= f) ≡ some b
    → (a : A) × (m ≡ some a) × (f a ≡ some b)
>>=-eq-some none f h = cc
>>=-eq-some (some a) f h = (a, refl, h)

-- A result that is relabelled before a step, against one that is relabelled behind it.
pub >>=-relabel {ℓ} :
    {A B C D : Type ℓ} (w : Option A) (k : A → B) (f : B → Option C) (g : A → Option D) (m : D → C)
    → ((a : A) → f (k a) ≡ (g a >>= λ d. some (m d)))
    → ((w >>= λ a. some (k a)) >>= f) ≡ ((w >>= g) >>= λ d. some (m d))
>>=-relabel none k f g m h = refl
>>=-relabel (some a) k f g m h = h a

pub bind_ext {ℓ κ} :
    {A : Type ℓ} {B : Type κ} (o : Option A) {f g : A → Option B}
    → ((a : A) → f a ≡ g a)
    → (o >>= f) ≡ (o >>= g)
bind_ext none h = refl
bind_ext (some a) h = h a
