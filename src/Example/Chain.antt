-- ===== src/Example/Chain.antt =====
-- The libraries as one record of operations, with the laws that the theorems ask for.
use stable_coin.Prelude.{
  ◌≡◌, refl, ap, sym, Bytes, [], ◌∷◌, Option, none, some, Bool, false, ◌&&◌, not, leb, length,
  bytes_eq, bytes_eq_refl, if◌then◌else◌, arith, List,
}
use stable_coin.Prelude.Int.{ℤ, pos, ◌+ℤ◌, ◌-ℤ◌, ltb_ℤ}
use stable_coin.Go.Outcome.{Outcome, ok, err, panic, Done, Action, external, not_found, ◌>>=◌}
use stable_coin.Go.Strings.{is_blank}
use stable_coin.Sdk.{Sdk, Coin, Coins, MathLaws, StoreLaws, SetLaws, CoinLaws, BankLaws}
use stable_coin.Example.Decimal.{print_int, parse_int, checked, parse_int-print, checked-eq-some}
use stable_coin.Example.Ledger.{
  Ledger, supply, mint, burn, send, supply-mint, supply-burn, supply-send,
}

abbrev pub Values : Type 0
Values = Bytes → Option Bytes

abbrev pub set_value : Bytes → Bytes → Values → Values
set_value key value s other = if bytes_eq key other then some value else s other

abbrev kv_set : Bytes → Bytes → Action Values Done
kv_set key value s = (ok tt, set_value key value s)

abbrev present : Option Bytes → Outcome Bytes
present none = err not_found
present (some bz) = ok bz

abbrev item_get : (V : Type 0) → (Bytes → Outcome V) → Bytes → Values → Outcome V
item_get V decode key s = present (s key) >>= decode

abbrev stored : Outcome Bytes → Bytes → Action Values Done
stored (ok bz) key s = kv_set key bz s
stored (err e) key s = (err e, s)
stored panic key s = (panic, s)

abbrev item_set : (V : Type 0) → (V → Outcome Bytes) → Bytes → V → Action Values Done
item_set V encode key v s = stored (encode v) key s

-- Three letters at least, the first of them no digit.
abbrev is_denom : Bytes → Bool
is_denom [] = false
is_denom (b ∷ s) = leb 65 b && leb 2 (length s) && leb (length s) 127

abbrev new_coin : Bytes → ℤ → Option Coin
new_coin d a =
    if is_denom d && not (ltb_ℤ a (pos 0)) then some (record { denom = d; amount = a }) else none

abbrev new_coins : List Coin → Option Coins
new_coins [] = some []
new_coins (c ∷ []) = if ltb_ℤ (pos 0) c.amount then some (c ∷ []) else some []
new_coins (c ∷ d ∷ cs) = none

abbrev address : Bytes → Outcome Bytes
address s = if is_blank s then err (external 1) else ok s

abbrev pub chain : Sdk
chain = record {
  new_int_from_string = parse_int;
  int_string = print_int;
  int_add = λ a b. checked (a +ℤ b);
  int_sub = λ a b. checked (a -ℤ b);
  int_is_positive = λ a. ltb_ℤ (pos 0) a;
  int_gt = λ a b. ltb_ℤ b a;
  int_lt = λ a b. ltb_ℤ a b;
  acc_address_from_bech32 = address;
  string_to_bytes = address;
  bytes_to_string = λ s. ok s;
  new_coin = new_coin;
  new_coins = new_coins;
  Store = Values;
  kv_get = λ key s. ok (s key);
  kv_set = kv_set;
  item_get = item_get;
  item_set = item_set;
  Bank = Ledger;
  mint_coins = mint;
  burn_coins = burn;
  send_module_to_account = send;
  send_account_to_module = send;
  supply_of = supply;
}

pub chain-MathLaws : MathLaws chain
chain-MathLaws = record {
  positive_lem = λ a. refl;
  gt_lem = λ a b. refl;
  lt_lem = λ a b. refl;
  add_lem = λ a b c h. checked-eq-some (a +ℤ b) c h;
  sub_lem = λ a b c h. checked-eq-some (a -ℤ b) c h;
  parse_string = parse_int-print;
}

kv_set-eq :
    (key value : Bytes) (s s' : Values)
    → kv_set key value s ≡ (ok tt, s')
    → s' ≡ set_value key value s
kv_set-eq key value s s' h = ap (λ x. x.1) (sym h)

set_value-same : (key value : Bytes) (s : Values) → set_value key value s key ≡ some value
set_value-same key value s = rw (bytes_eq_refl key)

set_value-other :
    (key value other : Bytes) (s : Values)
    → bytes_eq key other ≡ false
    → set_value key value s other ≡ s other
set_value-other key value other s h = rw h

item_set-cases :
    (r : Outcome Bytes) (key : Bytes) (s s' : Values)
    → stored r key s ≡ (ok tt, s')
    → (bz : Bytes) × (r ≡ ok bz) × (s' ≡ set_value key bz s)
item_set-cases (ok bz) key s s' h = (bz, refl, kv_set-eq key bz s s' h)
item_set-cases (err e) key s s' h = cc
item_set-cases panic key s s' h = cc

pub chain-StoreLaws : StoreLaws chain
chain-StoreLaws = record {
  get-set = λ key value s s' h. rw (kv_set-eq key value s s' h, set_value-same key value s);
  item_get-item_set = λ V encode decode key v s s' codec h.
      let (bz, e, eq) = item_set-cases (encode v) key s s' h in
      rw (eq, set_value-same key bz s) (codec bz e);
  item_get-set_ne = λ V decode key value other s s' h ne.
      rw (kv_set-eq key value s s' h, set_value-other key value other s ne);
  get-item_set_ne = λ V encode key v other s s' h ne.
      let (bz, e, eq) = item_set-cases (encode v) key s s' h in
      rw (eq, set_value-other key bz other s ne);
}

pub chain-SetLaws : SetLaws chain
chain-SetLaws = record { set-ne-err = λ key value s s' e h. cc }

pub chain-CoinLaws : CoinLaws chain
chain-CoinLaws = record {
  new_coin_lem = λ d a c h. ground arith;
  new_coins_lem = λ c cs positive h. ground arith;
}

pub chain-BankLaws : BankLaws chain
chain-BankLaws = record {
  supply-mint = supply-mint;
  supply-burn = supply-burn;
  supply-send_out = supply-send;
  supply-send_in = supply-send;
}
