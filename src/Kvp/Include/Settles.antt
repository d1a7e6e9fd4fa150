-- ===== src/Kvp/Include/Settles.antt =====
-- src/ut_kvp.c: results that do not depend on the fuel once there is enough of it.
use ut_control.Base.{
  ℕ, zero, suc, ◌+◌, ◌≤◌, ◌≡◌, refl, ◌∙◌, Option, some, arith, ◌>>=◌, Bool, true, false,
  if◌then◌else◌,
}

-- From some fuel on, `g` returns `result`.
pub record Settles {A : Type 0} (g : ℕ → Option A) : Type 0 where
  pub enough : ℕ
  pub result : A
  pub settled : (fuel : ℕ) → enough ≤ fuel → g fuel ≡ some result

pub Settles-some : {A : Type 0} (a : A) → Settles (λ _. some a)
Settles-some a = record { enough = 0; result = a; settled = λ fuel h. refl }

pub Settles-bind :
    {A B : Type 0} (g : ℕ → Option A) (k : ℕ → A → Option B)
    → Settles g
    → ((a : A) → Settles (λ fuel. k fuel a))
    → Settles (λ fuel. g fuel >>= k fuel)
Settles-bind g k sg sk = record {
  enough = sg.enough + (sk sg.result).enough;
  result = (sk sg.result).result;
  settled =
      λ fuel h. rw (sg.settled fuel (omega arith)) ((sk sg.result).settled fuel (omega arith));
}

pub Settles-if :
    {A : Type 0} (b : Bool) (g h : ℕ → Option A)
    → Settles g
    → Settles h
    → Settles (λ fuel. if b then g fuel else h fuel)
Settles-if true g h sg sh = sg
Settles-if false g h sg sh = sh

-- One more unit of fuel is spent on the call itself.
pub Settles-call :
    {A : Type 0} (g h : ℕ → Option A) → ((fuel : ℕ) → g (suc fuel) ≡ h fuel) → Settles h → Settles g
Settles-call g h step sh = record {
  enough = suc sh.enough;
  result = sh.result;
  settled = λ fuel b. from_suc fuel b;
}
  where
    from_suc : (fuel : ℕ) → suc sh.enough ≤ fuel → g fuel ≡ some sh.result
    from_suc zero b = elim b [ ]
    from_suc (suc fuel) b = step fuel ∙ sh.settled fuel (omega arith)
