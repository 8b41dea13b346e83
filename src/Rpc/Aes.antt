-- ===== src/Rpc/Aes.antt =====
-- rpc/aesctrcrypt.go: AES-CBC with PKCS#5 padding. The package variable `ivaes` is an argument.
-- crypto/aes and crypto/cipher are the parameter `BlockCipher`.
pub mod Padding
pub mod RoundTrip
pub mod Tests
use rocommon.Prelude.{
  ℕ, zero, suc, ◌+◌, ◌-◌, ◌%◌, ◌≡◌, ◌⊎◌, Bool, true, false, List, [], ◌∷◌, ◌++◌, map, ltb, ◌==◌,
  ◌||◌, not, if◌then◌else◌, length, take, replicate, get_or,
}
use rocommon.Rpc.Fault.{Result, ok, err, panic, ◌>>=◌, key_len, iv_aes, padding_size, new_cipher}

abbrev pub Bytes : Type 0
Bytes = List ℕ

abbrev pub block_size : ℕ
block_size = 16

-- The lengths that `aes.NewCipher` takes.
abbrev pub is_key_len : ℕ → Bool
is_key_len n = n == 16 || n == 24 || n == 32

-- `aes.NewCipher` and the CBC modes of crypto/cipher. `encrypt key iv` and `decrypt key iv` are
-- `CryptBlocks` on a text of whole blocks, under an iv of one block.
pub record BlockCipher : Type 0 where
  pub accepts : Bytes → Bool
  pub encrypt : Bytes → Bytes → Bytes → Bytes
  pub decrypt : Bytes → Bytes → Bytes → Bytes

-- What their documentation says.
pub record IsCipher (c : BlockCipher) : Type 0 where
  pub accepts_key : (key : Bytes) → is_key_len (length key) ≡ true → c.accepts key ≡ true
  pub length-encrypt : (key iv text : Bytes) → length (c.encrypt key iv text) ≡ length text
  pub decrypt-encrypt :
      (key iv text : Bytes)
      → is_key_len (length key) ≡ true
      → length iv ≡ block_size
      → length text % block_size ≡ 0
      → c.decrypt key iv (c.encrypt key iv text) ≡ text

-- `byte(padding)` is the padding modulo 256.
pub pkcs5_padding : Bytes → ℕ → Bytes
pkcs5_padding plain_text block_size =
    if block_size == 0
    then []
    else (let padding = block_size - length plain_text % block_size in
        plain_text ++ replicate padding (padding % 256))

pub pkcs5_unpadding : Bytes → Result Bytes
pkcs5_unpadding plain_text =
    let n = length plain_text in
    if n == 0
    then ok plain_text
    else (let number = get_or plain_text (n - 1) 0 in
        if ltb n number then err padding_size else ok (take (n - number) plain_text))

-- The choice of the initialisation vector, which both directions make.
pub choose_iv : Bytes → Bytes → Result Bytes
choose_iv ivaes iv_aes_arg =
    if not (length iv_aes_arg == 0)
    then (if not (length iv_aes_arg == 16) then err iv_aes else ok iv_aes_arg)
    else ok ivaes

-- `cipher.NewCBCEncrypter` panics on an iv that is no block, `CryptBlocks` on a text that is not of
-- whole blocks.
pub crypt_blocks : (Bytes → Bytes → Bytes → Bytes) → Bytes → Bytes → Bytes → Result Bytes
crypt_blocks mode key iv text =
    if not (length iv == block_size)
    then panic
    else if not (length text % block_size == 0)
    then panic
    else ok (mode key iv text)

module _ (c : BlockCipher) (ivaes : Bytes) where
  pub aes_cbc_encrypt : Bytes → Bytes → Bytes → Result Bytes
  unfolding choose_iv crypt_blocks
  aes_cbc_encrypt plain_text key iv_aes_arg =
      if not (is_key_len (length key))
      then err key_len
      else if not (c.accepts key)
      then err new_cipher
      else (choose_iv ivaes iv_aes_arg >>= λ iv.
          crypt_blocks c.encrypt key iv (pkcs5_padding plain_text block_size))

  pub aes_cbc_decrypt : Bytes → Bytes → Bytes → Result Bytes
  unfolding choose_iv crypt_blocks
  aes_cbc_decrypt cipher_text key iv_aes_arg =
      if not (is_key_len (length key))
      then err key_len
      else if not (c.accepts key)
      then err new_cipher
      else (choose_iv ivaes iv_aes_arg >>= λ iv.
          crypt_blocks c.decrypt key iv cipher_text >>= λ text. pkcs5_unpadding text)

  pub aes_ctr_encrypt : Bytes → Bytes → Bytes → Result Bytes
  unfolding aes_cbc_encrypt
  aes_ctr_encrypt text key iv = aes_cbc_encrypt text key iv

  pub aes_ctr_decrypt : Bytes → Bytes → Bytes → Result Bytes
  unfolding aes_cbc_decrypt
  aes_ctr_decrypt text key iv = aes_cbc_decrypt text key iv

-- `GetAESKey`: the new key, which is also the new `ivaes`; `rand i` is the `i`-th random digit.
random_digits : (ℕ → ℕ) → ℕ → ℕ → Bytes
random_digits rand i zero = []
random_digits rand i (suc n) = (b'0' + rand i % 10) ∷ random_digits rand (suc i) n

pub get_aes_key : (ℕ → ℕ) → ℕ → Bytes
unfolding random_digits
get_aes_key rand len = b'w' ∷ b't' ∷ random_digits rand 0 (len - 2)
