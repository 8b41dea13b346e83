-- ===== src/Rpc/Fault.antt =====
-- What a call of the package rpc ends in: a value, an error value, or a run-time panic.

pub data Error : Type 0 where
  -- io.EOF and io.ErrUnexpectedEOF
  eof unexpected_eof : Error
  -- ErrKeyLen, ErrIvAes, ErrPaddingSize
  key_len iv_aes padding_size : Error
  -- errors of libraries: crypto/aes, RSA, the message codec, the writer
  new_cipher rsa codec write : Error
  -- "msg not register", "msg decodeMessage failed"
  msg_not_register msg_decode_failed : Error

pub data Result {ℓ} (A : Type ℓ) : Type ℓ where
  ok : A → Result A
  err : Error → Result A
  panic : Result A

infixl 5 ◌>>=◌
abbrev pub ◌>>=◌ {ℓ κ} : {A : Type ℓ} {B : Type κ} → Result A → (A → Result B) → Result B
ok a >>= f = f a
err e >>= f = err e
panic >>= f = panic
