-- ===== src/Binance/FixApp/Accepted.antt =====
-- A server that verifies the logon which src/binance/fix_app.cpp and src/binance/auth.cpp sign.
use trader_cpp.Base.{
  ◌≡◌, refl, ap, ◌∙◌, Bool, true, false, Option, some, inl, inr, [], ◌∷◌, Text, codes, done,
}
use trader_cpp.Binance.Auth.{Auth, Crypto, sign_payload}
use trader_cpp.Binance.Auth.Signed.{HasSeed, Signs, sign_payload-Signs}
use trader_cpp.Binance.FixApp.{AdminMessage, logon_payload, msg_type_logon, soh, to_admin}
use trader_cpp.Binance.FixApp.Logon.{to_admin-IsSigned}
use trader_cpp.Binance.FixApp.Soh.{join_fields}

-- What the server calls: `verify` takes a public key, a message and a signature.
pub record Server : Type 0 where
  pub verify : Text → Text → Text → Bool
  pub base642bin : Text → Text

abbrev verifies :
    Server → Text → Option Text → Option Text → Option Text → Option Text → Option Text → Bool
verifies server public_key (some sender) (some target) (some seq_num) (some time) (some signature) =
    server.verify public_key (join_fields soh (codes "A") (sender ∷ target ∷ seq_num ∷ time ∷ []))
      (server.base642bin signature)
verifies server public_key _ _ _ _ _ = false

-- A logon is accepted if all its fields are set, and the signature that it carries is one of its
-- type, sender, target, sequence number and time, with SOH between them.
abbrev pub accepts : Server → Text → AdminMessage → Bool
accepts server public_key msg =
    verifies server public_key msg.sender_comp_id msg.target_comp_id msg.msg_seq_num
      msg.sending_time msg.raw_data

module _ {File Key : Type 0} (crypto : Crypto File Key) (server : Server) (public_key : Text → Text)
    (verified : (seed sk payload sig : Text)
      → crypto.sign_seed_keypair seed ≡ some sk
      → crypto.sign_detached payload sk ≡ some sig
      → server.verify (public_key seed) payload sig ≡ true)
    (decoded : (sig : Text) → server.base642bin (crypto.bin2base64 sig) ≡ sig) where
  -- The payload of the logon is what the server puts together again.
  verify-Signs :
      (seed sender target seq_num time signature : Text)
      → Signs crypto (logon_payload sender target seq_num time) seed signature
      → server.verify
          (public_key seed)
          (join_fields soh (codes "A") (sender ∷ target ∷ seq_num ∷ time ∷ []))
          (server.base642bin signature)
        ≡ true
  unfolding logon_payload
  verify-Signs seed sender target seq_num time signature h =
      rw (ap server.base642bin h.encoded ∙ decoded h.sig)
        (verified seed h.sk (logon_payload sender target seq_num time) h.sig h.has_sk h.has_sig)

  -- Let signatures of the key pair of a seed be verified by its public key, and Base64 be read back.
  -- Then each logon that is sent without an exception is accepted by the server as one of the user's, for
  -- the public key that belongs to the key in the user's file.
  pub to_admin-accepts :
      (auth : Auth) (now : Text) (msg : AdminMessage)
      → msg.msg_type ≡ some msg_type_logon
      → (to_admin (sign_payload crypto auth) auth.api_key now msg).1 ≡ done
      → let sent = (to_admin (sign_payload crypto auth) auth.api_key now msg).0 in
        (seed : Text) × HasSeed crypto auth seed
        × (accepts server (public_key seed) sent ≡ true)
        × (sent.username ≡ some auth.api_key)
  to_admin-accepts auth now msg logon e =
      elim (to_admin-IsSigned (sign_payload crypto auth) auth.api_key now msg msg_type_logon
        logon) [
          | inl (_, h, _) ↦
              let (seed, has_seed, signs) = sign_payload-Signs crypto auth _ h.signature h.signed in
              (
                seed,
                has_seed,
                rw (h.has_sender, h.has_target, h.has_seq_num, h.has_time, h.has_signature)
                    (verify-Signs seed h.sender h.target h.seq_num h.time h.signature signs),
                h.has_username,
              )
          | inr (inl (_, _, (x, p))) ↦ cc (e, p)
          | inr (inr (other, _, _)) ↦ absurd (other refl)
        ]
