-- ===== src/Result/Rules.antt =====
-- Properties of a result, by rules that follow a chain of fallible steps.
use nanoarrow2parquet.Result.{Result, ok, err, crash, ◌>>=◌}

-- A result that has the property if there is one.
abbrev pub IfOk {ℓ} : {A : Type ℓ} → (A → Type 0) → Result A → Type 0
IfOk P (ok a) = P a
IfOk P (err e) = Unit
IfOk P crash = Unit

pub IfOk-bind {ℓ κ} :
    {A : Type ℓ} {B : Type κ} (P : A → Type 0) (Q : B → Type 0) (m : Result A) (f : A → Result B)
    → IfOk P m
    → ((a : A) → P a → IfOk Q (f a))
    → IfOk Q (m >>= f)
IfOk-bind P Q (ok a) f h k = k a h
IfOk-bind P Q (err e) f h k = tt
IfOk-bind P Q crash f h k = tt

pub IfOk-any {ℓ κ} :
    {A : Type ℓ} {B : Type κ} (Q : B → Type 0) (m : Result A) (f : A → Result B)
    → ((a : A) → IfOk Q (f a))
    → IfOk Q (m >>= f)
IfOk-any Q (ok a) f k = k a
IfOk-any Q (err e) f k = tt
IfOk-any Q crash f k = tt

pub IfOk-map {ℓ} :
    {A : Type ℓ} (P Q : A → Type 0) (m : Result A) → IfOk P m → ((a : A) → P a → Q a) → IfOk Q m
IfOk-map P Q (ok a) h f = f a h
IfOk-map P Q (err e) h f = tt
IfOk-map P Q crash h f = tt
