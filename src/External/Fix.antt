-- ===== src/External/Fix.antt =====
-- QuickFIX messages, as far as the program reads them. A field of a message is there or not, and
-- its text can be malformed for its type: `get` throws `FieldNotFound`, `getValue` throws
-- `IncorrectDataFormat`.
use trader_cpp.Base.{
  ℕ, zero, suc, Bool, true, false, Option, none, some, List, [], ◌∷◌, Text, Outcome, ok, throw,
  Attempt, and_then, field_not_found, incorrect_format,
}

pub data Stored (A : Type 0) : Type 0 where
  malformed : Stored A
  wellformed : A → Stored A

abbrev pub Field : Type 0 → Type 0
Field A = Option (Stored A)

-- `msg.get(field)` and `msg.getField(field)`
abbrev pub get {ℓ} : {A : Type ℓ} → Option A → Outcome A
get none = throw field_not_found
get (some a) = ok a

-- `group.isSetField(tag)`
abbrev pub is_set {ℓ} : {A : Type ℓ} → Option A → Bool
is_set none = false
is_set (some _) = true

-- `field.getValue()`
abbrev pub get_value : {A : Type 0} → Stored A → Outcome A
get_value malformed = throw incorrect_format
get_value (wellformed a) = ok a

-- `FIX::UtcTimeStamp`, as far as the program reads it.
pub record UtcTime : Type 0 where
  pub hour : ℕ
  pub minute : ℕ
  pub second : ℕ
  pub microsecond : ℕ

-- A repeating group `NoMDEntries` of either market data message.
pub record MdEntry (D : Type 0) : Type 0 where
  pub entry_type : Field ℕ
  pub px : Field D
  pub size : Field D
  pub symbol : Option Text
  pub update_action : Field ℕ
  pub aggressor_side : Field ℕ
  pub trade_id : Option Text
  pub transact_time : Field UtcTime

-- `num_entries` is the field `NoMDEntries`, a count; the groups can be fewer.
pub record Snapshot (D : Type 0) : Type 0 where
  pub symbol : Option Text
  pub num_entries : Field ℕ
  pub groups : List (MdEntry D)

pub record Increment (D : Type 0) : Type 0 where
  pub num_entries : Field ℕ
  pub groups : List (MdEntry D)

-- FIX::MDEntryType
abbrev pub entry_bid : ℕ
entry_bid = b'0'

abbrev pub entry_offer : ℕ
entry_offer = b'1'

abbrev pub entry_trade : ℕ
entry_trade = b'2'

-- FIX::MDUpdateAction
abbrev pub action_new : ℕ
action_new = b'0'

abbrev pub action_change : ℕ
action_change = b'1'

abbrev pub action_delete : ℕ
action_delete = b'2'

-- `for (int i = 1; i <= n; i++) { msg.getGroup(i, group); body }`. The body is told whether `i` is
-- 1, and the `i`-th group is the head of those left; `getGroup` throws past the last one.
unfoldable pub for_groups {ℓ} :
    {G : Type 0} {S : Type ℓ} → (Bool → G → S → Attempt S) → Bool → ℕ → List G → S → Attempt S
for_groups body first zero gs s = (s, ok tt)
for_groups body first (suc n) [] s = (s, throw field_not_found)
for_groups body first (suc n) (g ∷ gs) s = and_then (body first g s) (for_groups body false n gs)
