-- ===== src/Binance/FixApp/Logon.antt =====
-- The logon that `toAdmin` of src/binance/fix_app.cpp signs.
use trader_cpp.Base.{
  ◌≡◌, ◌≢◌, refl, ap, ◌⊎◌, inl, inr, some, Option-cases, [], ◌∷◌, ◌++◌, Text, All, length,
  Bool-cases, text_eq, text_eq_sound, Outcome, ok, throw, Exception, Outcome-cases, done, arith,
}
use trader_cpp.Binance.FixApp.{
  AdminMessage, msg_type_logon, logon_payload, sign_logon, to_admin, soh,
}
use trader_cpp.Binance.FixApp.Soh.{IsField}

-- Texts without SOH, each with SOH behind it, can be told apart.
split_at_soh :
    (a b r s : Text) → IsField a → IsField b → a ++ (soh ∷ r) ≡ b ++ (soh ∷ s) → (a ≡ b) × (r ≡ s)
split_at_soh [] [] r s h k e = (refl, cc e)
split_at_soh [] (d ∷ b) r s h k e = ground (arith, e, k.0)
split_at_soh (c ∷ a) [] r s h k e = ground (arith, e, h.0)
split_at_soh (c ∷ a) (d ∷ b) r s h k e =
    let (same, rest) = split_at_soh a b r s h.1 k.1 (cc e) in (cc (e, same), rest)

-- Two logons have the same payload only if sender, target, sequence number and time are the same.
pub logon_payload_injective :
    (sender target seq_num time sender' target' seq_num' time' : Text)
    → All IsField (sender ∷ target ∷ seq_num ∷ [])
    → All IsField (sender' ∷ target' ∷ seq_num' ∷ [])
    → logon_payload sender target seq_num time ≡ logon_payload sender' target' seq_num' time'
    → (sender ≡ sender') × (target ≡ target') × (seq_num ≡ seq_num') × (time ≡ time')
unfolding logon_payload
logon_payload_injective sender target seq_num time sender' target' seq_num' time' h k e =
    let (same_sender, rest) = split_at_soh sender sender' _ _ h.0 k.0 (cc e) in
    let (same_target, rest') = split_at_soh target target' _ _ h.1.0 k.1.0 rest in
    let (same_seq_num, same_time) = split_at_soh seq_num seq_num' _ _ h.1.1.0 k.1.1.0 rest' in
    (same_sender, same_target, same_seq_num, same_time)

-- A message that carries the signature of its own header, and says for whom.
pub record IsSigned (sign : Text → Outcome Text) (api_key : Text) (msg : AdminMessage)
    : Type 0 where
  pub sender : Text
  pub target : Text
  pub seq_num : Text
  pub time : Text
  pub signature : Text
  pub has_sender : msg.sender_comp_id ≡ some sender
  pub has_target : msg.target_comp_id ≡ some target
  pub has_seq_num : msg.msg_seq_num ≡ some seq_num
  pub has_time : msg.sending_time ≡ some time
  pub signed : sign (logon_payload sender target seq_num time) ≡ ok signature
  pub has_signature : msg.raw_data ≡ some signature
  pub has_length : msg.raw_data_length ≡ some (length signature)
  pub has_username : msg.username ≡ some api_key

-- The fields that a logon needs, and the signature that is made of them.
record Read (sign : Text → Outcome Text) (now : Text) (msg : AdminMessage) (signature : Text)
    : Type 0 where
  pub sender : Text
  pub target : Text
  pub seq_num : Text
  pub has_sender : msg.sender_comp_id ≡ some sender
  pub has_target : msg.target_comp_id ≡ some target
  pub has_seq_num : msg.msg_seq_num ≡ some seq_num
  pub signed : sign (logon_payload sender target seq_num now) ≡ ok signature

sign_logon-Read :
    (sign : Text → Outcome Text) (now : Text) (msg : AdminMessage) (signature : Text)
    → sign_logon sign now msg ≡ ok signature
    → Read sign now msg signature
unfolding sign_logon
sign_logon-Read sign now msg signature e = elim (Option-cases msg.sender_comp_id) [
  | inl p ↦ cc (rw p at e)
  | inr (sender, p) ↦ elim (Option-cases msg.target_comp_id) [
    | inl q ↦ cc (rw (p, q) at e)
    | inr (target, q) ↦ elim (Option-cases msg.msg_seq_num) [
      | inl r ↦ cc (rw (p, q, r) at e)
      | inr (seq_num, r) ↦ record {
        sender = sender;
        target = target;
        seq_num = seq_num;
        has_sender = p;
        has_target = q;
        has_seq_num = r;
        signed = rw (p, q, r) at e;
      }
    ]
  ]
]

-- A logon is either signed, and then it carries the signature of the sender, target, sequence number
-- and time that stand in its own header, the signature's length, and the key as its user name; or
-- a field is missing or signing throws, and then it is as it was, and the call throws. Any other
-- message stays as it is.
pub to_admin-IsSigned :
    (sign : Text → Outcome Text) (api_key now : Text) (msg : AdminMessage) (type : Text)
    → msg.msg_type ≡ some type
    → let (msg', result) = to_admin sign api_key now msg in
      ((type ≡ msg_type_logon) × IsSigned sign api_key msg' × (result ≡ done))
      ⊎ ((type ≡ msg_type_logon) × (msg' ≡ msg) × ((x : Exception) × (result ≡ throw x)))
      ⊎ ((type ≢ msg_type_logon) × (msg' ≡ msg) × (result ≡ done))
unfolding to_admin
to_admin-IsSigned sign api_key now msg type has_type =
    elim (Bool-cases (text_eq type msg_type_logon)) [
      | inr other ↦
          let differs : type ≢ msg_type_logon =
            λ e. cc (other, ap (λ (t : Text). text_eq t msg_type_logon) e) in
          inr (inr (differs, rw (has_type, other) refl, rw (has_type, other) refl))
      | inl logon ↦
          let same = text_eq_sound type msg_type_logon logon in
          elim (Outcome-cases (sign_logon sign now msg)) [
            | inr (x, e) ↦
                inr (inl (same, rw (has_type, logon, e) refl, (x, rw (has_type, logon, e) refl)))
            | inl (signature, e) ↦
                let r = sign_logon-Read sign now msg signature e in
                inl (
                  same,
                  rw (has_type, logon, e)
                      (record {
                        sender = r.sender;
                        target = r.target;
                        seq_num = r.seq_num;
                        time = now;
                        signature = signature;
                        has_sender = r.has_sender;
                        has_target = r.has_target;
                        has_seq_num = r.has_seq_num;
                        has_time = refl;
                        signed = r.signed;
                        has_signature = refl;
                        has_length = refl;
                        has_username = refl;
                      }),
                  rw (has_type, logon, e) refl,
                )
          ]
    ]
