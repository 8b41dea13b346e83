-- ===== src/Rpc/Rsa.antt =====
-- rpc/rsacrypt.go: RSA with a PEM key and a base64 text. encoding/pem, crypto/x509, crypto/rsa and
-- encoding/base64 are the parameter `RsaLib`; the randomness of the encryption is part of it.
use rocommon.Prelude.{refl, arith, Option, none, some, ◌≡◌}
use rocommon.Rpc.Fault.{◌>>=◌, Result, ok, err, panic, rsa}
use rocommon.Rpc.Aes.{Bytes}

-- Parsed keys and decoded blocks are bytes of their own; `none` is an error of the library, and the
-- nil block of `pem.Decode` where it finds no PEM data.
pub record RsaLib : Type 0 where
  pub pem_decode : Bytes → Option Bytes
  pub parse_public : Bytes → Option Bytes
  pub parse_private : Bytes → Option Bytes
  pub encrypt : Bytes → Bytes → Option Bytes
  pub decrypt : Bytes → Bytes → Option Bytes
  pub base64_encode : Bytes → Bytes
  pub base64_decode : Bytes → Option Bytes

abbrev or_fault {ℓ} : {A : Type ℓ} → Option A → Result A
or_fault none = err rsa
or_fault (some a) = ok a

module _ (lib : RsaLib) where
  -- `block.Bytes` panics on the nil block.
  block_bytes : Bytes → Result Bytes
  block_bytes key = elim (lib.pem_decode key) [ none ↦ panic | some b ↦ ok b ]

  unfoldable pub rsa_encrypt : Bytes → Bytes → Result Bytes
  unfolding block_bytes
  rsa_encrypt text key = do
    block ← block_bytes key
    public ← or_fault (lib.parse_public block)
    ret_text ← or_fault (lib.encrypt public text)
    ok (lib.base64_encode ret_text)

  unfoldable pub rsa_decrypt : Bytes → Bytes → Result Bytes
  unfolding block_bytes
  rsa_decrypt crypt_text key = do
    block ← block_bytes key
    private ← or_fault (lib.parse_private block)
    text ← or_fault (lib.base64_decode crypt_text)
    or_fault (lib.decrypt private text)

  -- What crypto/rsa and encoding/base64 promise of two keys of one pair: both are PEM data of keys, and what
  -- is encrypted with the public key is decrypted with the private one; base64 decodes what it encodes.
  pub record IsPair (public private : Bytes) : Type 0 where
    pub public_block : Bytes
    pub private_block : Bytes
    pub public_key : Bytes
    pub private_key : Bytes
    pub public_pem : lib.pem_decode public ≡ some public_block
    pub private_pem : lib.pem_decode private ≡ some private_block
    pub public_parsed : lib.parse_public public_block ≡ some public_key
    pub private_parsed : lib.parse_private private_block ≡ some private_key
    pub key_pair :
        (text sealed : Bytes)
        → lib.encrypt public_key text ≡ some sealed
        → lib.decrypt private_key sealed ≡ some text
    pub base64_back : (b : Bytes) → lib.base64_decode (lib.base64_encode b) ≡ some b

  or_fault_sealed :
      (public private : Bytes) (p : IsPair public private) (text cipher : Bytes)
      (sealed : Option Bytes)
      → lib.encrypt p.public_key text ≡ sealed
      → (or_fault sealed >>= λ b. ok (lib.base64_encode b)) ≡ ok cipher
      → (or_fault (lib.base64_decode cipher) >>= λ b. or_fault (lib.decrypt p.private_key b))
        ≡ ok text
  or_fault_sealed public private p text cipher none e h = absurd (ground arith)
  or_fault_sealed public private p text cipher (some b) e h =
      ground (arith, h, p.base64_back b, p.key_pair text b e)

  -- RSADecrypt with the private key gives back the text of what RSAEncrypt made with the public one.
  pub rsa_decrypt-rsa_encrypt :
      (public private : Bytes) (p : IsPair public private) (text cipher : Bytes)
      → rsa_encrypt text public ≡ ok cipher
      → rsa_decrypt cipher private ≡ ok text
  unfolding rsa_encrypt rsa_decrypt block_bytes
  rsa_decrypt-rsa_encrypt public private p text cipher h =
      let sealed =
        or_fault_sealed public private p text cipher (lib.encrypt p.public_key text) refl in
      ground (arith, h, sealed)
