-- ===== src/Rpc/Aes/Tests.antt =====
-- Runs of rpc/aesctrcrypt.go, and its theorems at a cipher that adds 1 to each byte. The
-- documented laws of a cipher can be met, as this one shows.
use rocommon.Prelude.{
  suc, ◌+◌, ◌-◌, ◌%◌, ◌≤◌, ◌<◌, ◌≡◌, refl, true, [], ◌∷◌, map, arith, length, replicate, length-map,
}
use rocommon.Rpc.Fault.{err, panic, padding_size}
use rocommon.Rpc.Aes.{
  Bytes, BlockCipher, IsCipher, block_size, pkcs5_padding, pkcs5_unpadding, aes_ctr_decrypt,
  get_aes_key,
}
use rocommon.Rpc.Aes.Padding.{length-pkcs5_padding}
use rocommon.Rpc.Aes.RoundTrip.{aes_ctr_decrypt_partial}

abbrev pub shift_cipher : BlockCipher
shift_cipher = record {
  accepts = λ key. true;
  encrypt = λ key iv text. map suc text;
  decrypt = λ key iv text. map (λ b. b - 1) text;
}

shift_back : (text : Bytes) → map (λ b. b - 1) (map suc text) ≡ text
shift_back [] = refl
shift_back (b ∷ text) = ground (arith, shift_back text)

pub shift_cipher-IsCipher : IsCipher shift_cipher
shift_cipher-IsCipher = record {
  accepts_key = λ key h. refl;
  length-encrypt = λ key iv text. length-map text suc;
  decrypt-encrypt = λ key iv text hk hv ht. shift_back text;
}

abbrev pub sample_key : Bytes
sample_key = replicate 16 b'k'

pad_run : pkcs5_padding (1 ∷ 2 ∷ []) 4 ≡ 1 ∷ 2 ∷ 2 ∷ 2 ∷ []
unfolding pkcs5_padding
pad_run = refl

unpad_run : pkcs5_unpadding (1 ∷ 9 ∷ []) ≡ err padding_size
unfolding pkcs5_unpadding
unpad_run = refl

key_run : get_aes_key (λ i. i) 4 ≡ b'w' ∷ b't' ∷ b'0' ∷ b'1' ∷ []
unfolding get_aes_key
key_run = refl

length-pkcs5_padding_example :
    (length (pkcs5_padding (1 ∷ []) block_size) % block_size ≡ 0)
    × (1 < length (pkcs5_padding (1 ∷ []) block_size))
    × (length (pkcs5_padding (1 ∷ []) block_size) ≤ 1 + 16)
length-pkcs5_padding_example = length-pkcs5_padding (1 ∷ [])

aes_ctr_decrypt_partial_example :
    aes_ctr_decrypt shift_cipher [] (1 ∷ 2 ∷ []) sample_key sample_key ≡ panic
aes_ctr_decrypt_partial_example =
    aes_ctr_decrypt_partial shift_cipher [] shift_cipher-IsCipher (1 ∷ 2 ∷ []) sample_key refl
      (omega arith)
