-- ===== src/Core/Errno.antt =====
-- The error numbers that the filesystem code raises (Python's `errno` and `OSError`), and the
-- result of code that may raise one.

use apate.Prelude.{◌≡◌, refl, ◌⊎◌, inl, inr, nat_eq, string_eq}

-- `key_error` is Python's KeyError, when a hash lacks a field that the code takes for granted, and
-- `runtime_error` its RuntimeError, when the audit spool refuses an event.
pub data Errno : Type 0 where
  key_error runtime_error einval enotdir eisdir enospc eexist enoent enotempty eio efbig eagain
        eacces ebadf :
      Errno

pub data Result {ℓ} (A : Type ℓ) : Type ℓ where
  ok : A → Result A
  err : Errno → Result A

infixl 5 ◌>>=◌
abbrev pub ◌>>=◌ {ℓ κ} : {A : Type ℓ} {B : Type κ} → Result A → (A → Result B) → Result B
ok a >>= f = f a
err e >>= f = err e

pub Result-cases {ℓ} :
    {A : Type ℓ} (r : Result A) → ((e : Errno) × (r ≡ err e)) ⊎ ((a : A) × (r ≡ ok a))
Result-cases (ok a) = inr (a, refl)
Result-cases (err e) = inl (e, refl)

pub ok-injective {ℓ} : {A : Type ℓ} {a b : A} → ok a ≡ ok b → a ≡ b
ok-injective h = cc
