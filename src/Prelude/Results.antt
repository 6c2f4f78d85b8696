-- ===== src/Prelude/Results.antt =====
-- What a call from Python returns: a value, or a raised exception. `Errno` has the codes that the
-- port passes to `mp_raise_OSError`, by name: their numbers are MicroPython's.

pub data Errno : Type 0 where
  eio enoent e2big eexist ebadf einval emfile eacces : Errno

pub data Exception : Type 0 where
  value_error type_error : Exception
  os_error : Errno → Exception

pub data Result {ℓ} (A : Type ℓ) : Type ℓ where
  ok : A → Result A
  raised : Exception → Result A

infixl 5 ◌>>=◌
abbrev pub ◌>>=◌ {ℓ κ} : {A : Type ℓ} {B : Type κ} → Result A → (A → Result B) → Result B
ok a >>= f = f a
raised e >>= f = raised e
