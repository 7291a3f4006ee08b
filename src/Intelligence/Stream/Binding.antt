-- ===== src/Intelligence/Stream/Binding.antt =====
-- How `>>=` on readings composes, and what holds of all that a reading can go on with.
use apate.Prelude.{◌≡◌, refl, nat_eq, string_eq}
use apate.Intelligence.Stream.{Reading, going, failed, ◌>>=◌}

abbrev pub Afterwards {ℓ κ} : {A : Type ℓ} → (A → Type κ) → Reading A → Type κ
Afterwards P (going a) = P a
Afterwards P (failed e) = Unit

pub bind-Afterwards {ℓ κ μ} :
    {A : Type ℓ} {B : Type κ} (P : B → Type μ) (r : Reading A) (f : A → Reading B)
    → ((a : A) → Afterwards P (f a))
    → Afterwards P (r >>= f)
bind-Afterwards P (going a) f h = h a
bind-Afterwards P (failed e) f h = tt

pub bind-cong_after {ℓ κ μ} :
    {A : Type ℓ} {B : Type κ} (P : A → Type μ) (r : Reading A) (f g : A → Reading B)
    → Afterwards P r
    → ((a : A) → P a → f a ≡ g a)
    → (r >>= f) ≡ (r >>= g)
bind-cong_after P (going a) f g h same = same a h
bind-cong_after P (failed e) f g h same = refl

pub bind-cong {ℓ κ} :
    {A : Type ℓ} {B : Type κ} (r : Reading A) (f g : A → Reading B)
    → ((a : A) → f a ≡ g a)
    → (r >>= f) ≡ (r >>= g)
bind-cong (going a) f g same = same a
bind-cong (failed e) f g same = refl

pub bind_assoc {ℓ κ μ} :
    {A : Type ℓ} {B : Type κ} {C : Type μ} (r : Reading A) (f : A → Reading B) (g : B → Reading C)
    → (r >>= f >>= g) ≡ (r >>= λ a. f a >>= g)
bind_assoc (going a) f g = refl
bind_assoc (failed e) f g = refl

-- Chunks that come before the deadline, and their bytes.
