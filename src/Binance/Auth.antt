-- ===== src/Binance/Auth.antt =====
-- src/binance/auth.cpp and auth.h: the key and the signature of a logon.
pub mod Signed
use trader_cpp.Base.{
  ℕ, ◌≡◌, refl, Bool, Option, none, some, [], Text, Outcome, ok, throw, Reason, runtime_error,
  sodium_not_initialized, pem_not_opened, key_not_read, no_raw_key, bad_key_length, no_keypair,
  not_signed, ◌>>=◌, if◌then◌else◌, ◌==◌,
}

-- What the code calls of the C library, of OpenSSL and of libsodium; `none` is a failure.
pub record Crypto (File Key : Type 0) : Type 0 where
  pub sodium_init_fails : Bool
  pub fopen : Text → Option File
  pub pem_read_private_key : File → Option Key
  -- The length, and the 32 bytes of the buffer.
  pub get_raw_private_key : Key → Option (ℕ × Text)
  -- The secret key.
  pub sign_seed_keypair : Text → Option Text
  pub sign_detached : Text → Text → Option Text
  pub bin2base64 : Text → Text

pub record Auth : Type 0 where
  pub api_key : Text
  pub private_pem_path : Text

abbrev pub or_throw : {A : Type 0} → Reason → Option A → Outcome A
or_throw reason none = throw (runtime_error reason)
or_throw reason (some a) = ok a

abbrev pub ed25519_seed_size : ℕ
ed25519_seed_size = 32

module _ {File Key : Type 0} (crypto : Crypto File Key) where
  -- The constructor.
  unfoldable pub make : Text → Text → Outcome Auth
  make api_key private_pem_path =
      if crypto.sodium_init_fails
      then throw (runtime_error sodium_not_initialized)
      else ok (record { api_key = api_key; private_pem_path = private_pem_path })

  unfoldable pub get_seed_from_pem : Auth → Outcome Text
  get_seed_from_pem auth = do
    fp ← or_throw pem_not_opened (crypto.fopen auth.private_pem_path)
    pkey ← or_throw key_not_read (crypto.pem_read_private_key fp)
    raw ← or_throw no_raw_key (crypto.get_raw_private_key pkey)
    if raw.0 == ed25519_seed_size then ok raw.1 else throw (runtime_error bad_key_length)

  unfoldable pub sign_with_seed : Text → Text → Outcome Text
  sign_with_seed payload seed = do
    sk ← or_throw no_keypair (crypto.sign_seed_keypair seed)
    sig ← or_throw not_signed (crypto.sign_detached payload sk)
    ok (crypto.bin2base64 sig)

  unfoldable pub sign_payload : Auth → Text → Outcome Text
  unfolding get_seed_from_pem sign_with_seed
  sign_payload auth payload = get_seed_from_pem auth >>= sign_with_seed payload

unfoldable pub clear_keys : Auth → Auth
clear_keys auth = record { api_key = []; private_pem_path = [] }

-- Where no file has an empty path: once the keys are cleared, there is no key to show, and no
-- payload can be signed, whatever the keys were; each attempt throws that the file was not opened.
pub sign_payload-clear_keys :
    {File Key : Type 0} (crypto : Crypto File Key) (auth : Auth) (payload : Text)
    → crypto.fopen [] ≡ none
    → ((clear_keys auth).api_key ≡ [])
      × (sign_payload crypto (clear_keys auth) payload ≡ throw (runtime_error pem_not_opened))
unfolding sign_payload clear_keys
sign_payload-clear_keys crypto auth payload e = (refl, rw e refl)
