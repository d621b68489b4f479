-- ===== src/Result.antt =====
-- The application's errors (src/strategy_engine/domain/errors.py) and the results of code that may
-- raise them. An error keeps the constant part of its message: the interpolated path in front of it
-- and the `details` are dropped.
use Prim.Native.String.{String}
use strategy_engine.Prelude.{ℕ, ◌≡◌, refl, Bool, true, false, List, [], ◌∷◌}

-- `raised` is any exception of Python itself that nothing on the path catches.
pub data Error : Type 0 where
  invalid_request unknown_resource unsupported_capability evaluation_invariant_broken :
      String → Error
  market_data_unavailable upstream_contract_error : String → Error
  market_stream_not_found market_stream_not_ready : String → Error
  target_bar_not_committed trade_history_unavailable market_data_version_changed : String → Error
  raised : String → Error

-- The HTTP status that the constructor of each class fixes.
abbrev pub status_code : Error → ℕ
status_code (invalid_request m) = 422
status_code (unknown_resource m) = 404
status_code (unsupported_capability m) = 501
status_code (evaluation_invariant_broken m) = 500
status_code (market_data_unavailable m) = 503
status_code (upstream_contract_error m) = 502
status_code (market_stream_not_found m) = 404
status_code (market_stream_not_ready m) = 409
status_code (target_bar_not_committed m) = 409
status_code (trade_history_unavailable m) = 409
status_code (market_data_version_changed m) = 409
status_code (raised m) = 500

pub data Result {ℓ} (A : Type ℓ) : Type ℓ where
  ok : A → Result A
  err : Error → Result A

infixl 5 ◌>>=◌ ◌>>◌
abbrev pub ◌>>=◌ {ℓ κ} : {A : Type ℓ} {B : Type κ} → Result A → (A → Result B) → Result B
ok a >>= g = g a
err e >>= g = err e

abbrev pub ◌>>◌ {ℓ} : {B : Type ℓ} → Result (Unit {0}) → Result B → Result B
m >> k = m >>= λ _. k

-- `if test: raise e`
abbrev pub raise_if : Bool → Error → Result (Unit {0})
raise_if true e = err e
raise_if false e = ok tt

-- A comprehension whose item expression may raise: the first error wins.
module _ {ℓ κ} {A : Type ℓ} {B : Type κ} where
  abbrev pub each : (A → Result B) → List A → Result (List B)
  each g [] = ok []
  each g (x ∷ xs) = let rest = each g xs in g x >>= λ y. rest >>= λ ys. ok (y ∷ ys)

-- Inversion of a successful bind.
pub >>=-eq-ok {ℓ κ} :
    {A : Type ℓ} {B : Type κ} (m : Result A) (g : A → Result B) {b : B}
    → (m >>= g) ≡ ok b
    → (a : A) × (m ≡ ok a) × (g a ≡ ok b)
>>=-eq-ok (ok a) g h = (a, refl, h)
>>=-eq-ok (err e) g h = cc

-- A check that lets a result through.
pub raise_if->> :
    {A : Type 0} (test : Bool) (e : Error) (m : Result A) {a : A}
    → (raise_if test e >> m) ≡ ok a
    → (test ≡ false) × (m ≡ ok a)
raise_if->> true e m h = cc
raise_if->> false e m h = (refl, h)

-- `P` holds of the value, if there is one; and the rules for it.
abbrev pub Ensures {ℓ κ} : {A : Type ℓ} → (A → Type κ) → Result A → Type κ
Ensures P (ok a) = P a
Ensures P (err e) = Unit

pub Ensures->>= {ℓ κ μ ν} :
    {A : Type ℓ} {B : Type κ} (Q : A → Type μ) (P : B → Type ν) (m : Result A) (k : A → Result B)
    → Ensures Q m
    → ((a : A) → Q a → Ensures P (k a))
    → Ensures P (m >>= k)
Ensures->>= Q P (ok a) k h g = g a h
Ensures->>= Q P (err e) k h g = tt

pub Ensures-raise_if {ℓ κ} :
    {B : Type ℓ} (P : B → Type κ) (test : Bool) (e : Error) (m : Result B)
    → (test ≡ false → Ensures P m)
    → Ensures P (raise_if test e >> m)
Ensures-raise_if P true e m h = tt
Ensures-raise_if P false e m h = h refl

pub Ensures-weaken {ℓ κ μ} :
    {A : Type ℓ} (Q : A → Type κ) (P : A → Type μ) (m : Result A)
    → Ensures Q m
    → ((a : A) → Q a → Ensures P (ok a))
    → Ensures P m
Ensures-weaken Q P (ok a) h g = g a h
Ensures-weaken Q P (err e) h g = tt
