-- ===== src/Binance/Auth/Signed.antt =====
-- What a payload has gone through once `sign_payload` of src/binance/auth.cpp has signed it.
use trader_cpp.Base.{
  ◌≡◌, Bool-cases, ◌==◌, ==_iff, inl, inr, some, Option-cases, Text, ok, Outcome-cases,
}
use trader_cpp.Binance.Auth.{Auth, Crypto, get_seed_from_pem, sign_with_seed, sign_payload}

module _ {File Key : Type 0} (crypto : Crypto File Key) (auth : Auth) where
  -- The file has a key of 32 bytes.
  pub record HasSeed (seed : Text) : Type 0 where
    pub file : File
    pub key : Key
    pub opened : crypto.fopen auth.private_pem_path ≡ some file
    pub read : crypto.pem_read_private_key file ≡ some key
    pub raw : crypto.get_raw_private_key key ≡ some (32, seed)

  get_seed_from_pem-HasSeed : (seed : Text) → get_seed_from_pem crypto auth ≡ ok seed → HasSeed seed
  unfolding get_seed_from_pem
  get_seed_from_pem-HasSeed seed e = elim (Option-cases (crypto.fopen auth.private_pem_path)) [
    | inl p ↦ cc (rw p at e)
    | inr (file, p) ↦ elim (Option-cases (crypto.pem_read_private_key file)) [
      | inl q ↦ cc (rw (p, q) at e)
      | inr (key, q) ↦ elim (Option-cases (crypto.get_raw_private_key key)) [
        | inl r ↦ cc (rw (p, q, r) at e)
        | inr ((size, bytes), r) ↦ elim (Bool-cases (size == 32)) [
          | inl s ↦ record {
            file = file;
            key = key;
            opened = p;
            read = q;
            raw = cc (r, (==_iff size 32).0 s, rw (p, q, r, s) at e);
          }
          | inr s ↦ cc (rw (p, q, r, s) at e)
        ]
      ]
    ]
  ]

pub record Signs {File Key : Type 0} (crypto : Crypto File Key) (payload seed signed : Text)
    : Type 0 where
  pub sk : Text
  pub sig : Text
  pub has_sk : crypto.sign_seed_keypair seed ≡ some sk
  pub has_sig : crypto.sign_detached payload sk ≡ some sig
  pub encoded : signed ≡ crypto.bin2base64 sig

module _ {File Key : Type 0} (crypto : Crypto File Key) where
  sign_with_seed-Signs :
      (payload seed signed : Text)
      → sign_with_seed crypto payload seed ≡ ok signed
      → Signs crypto payload seed signed
  unfolding sign_with_seed
  sign_with_seed-Signs payload seed signed e = elim (Option-cases (crypto.sign_seed_keypair seed)) [
    | inl p ↦ cc (rw p at e)
    | inr (sk, p) ↦ elim (Option-cases (crypto.sign_detached payload sk)) [
      | inl q ↦ cc (rw (p, q) at e)
      | inr (sig, q) ↦ record {
        sk = sk;
        sig = sig;
        has_sk = p;
        has_sig = q;
        encoded = cc (rw (p, q) at e);
      }
    ]
  ]

  -- What is signed, is signed by the key of the file.
  pub sign_payload-Signs :
      (auth : Auth) (payload signed : Text)
      → sign_payload crypto auth payload ≡ ok signed
      → (seed : Text) × HasSeed crypto auth seed × Signs crypto payload seed signed
  unfolding sign_payload
  sign_payload-Signs auth payload signed e = elim (Outcome-cases (get_seed_from_pem crypto auth)) [
    | inl (seed, p) ↦ (
      seed,
      get_seed_from_pem-HasSeed crypto auth seed p,
      sign_with_seed-Signs payload seed signed (rw p at e),
    )
    | inr (x, p) ↦ cc (rw p at e)
  ]
