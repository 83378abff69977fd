-- ===== src/Prelude/Post.antt =====
-- Predicates of a result that may be missing.
use package.minecraft_os.Prelude.{◌≡◌, refl, Option, none, some, ◌>>=◌}

-- What holds of a result, if there is one.
abbrev pub Post {ℓ κ} : {A : Type ℓ} → (A → Type κ) → Option A → Type κ
Post P none = Unit
Post P (some a) = P a

pub Post-then {ℓ κ μ} :
    {A B : Type ℓ} (Q : A → Type κ) (P : B → Type μ) (m : Option A) (f : A → Option B)
    → Post Q m
    → ((a : A) → Q a → Post P (f a))
    → Post P (m >>= f)
Post-then Q P none f h k = _
Post-then Q P (some a) f h k = k a h

pub Post-any {ℓ} : {A : Type ℓ} (o : Option A) → Post (λ a. Unit {0}) o
Post-any none = _
Post-any (some a) = _

pub Post-map {ℓ κ} :
    {A : Type ℓ} (P Q : A → Type κ) (o : Option A) → ((a : A) → P a → Q a) → Post P o → Post Q o
Post-map P Q none f h = _
Post-map P Q (some a) f h = f a h

pub Post-self {ℓ} : {A : Type ℓ} (o : Option A) → Post (λ a. o ≡ some a) o
Post-self none = _
Post-self (some a) = refl
