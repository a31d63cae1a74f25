-- ===== src/Sdk/Ops.antt =====
-- The operations that x/stablecoin takes from its libraries.
use stable_coin.Prelude.{Option, List, Bool, Bytes}
use stable_coin.Prelude.Int.{ℤ}
use stable_coin.Go.Outcome.{Outcome, Done, Action}

-- sdk.Coin, and sdk.Coins as its slice.
pub record Coin : Type 0 where
  pub denom : Bytes
  pub amount : ℤ

abbrev pub Coins : Type 0
Coins = List Coin

pub record Sdk : Type 1 where
  -- math.NewIntFromString, with its `ok` flag
  pub new_int_from_string : Bytes → Option ℤ
  -- Int.String
  pub int_string : ℤ → Bytes
  -- Int.Add and Int.Sub: `none` is their panic on overflow
  pub int_add : ℤ → ℤ → Option ℤ
  pub int_sub : ℤ → ℤ → Option ℤ
  -- Int.IsPositive, Int.GT and Int.LT
  pub int_is_positive : ℤ → Bool
  pub int_gt : ℤ → ℤ → Bool
  pub int_lt : ℤ → ℤ → Bool
  -- sdk.AccAddressFromBech32
  pub acc_address_from_bech32 : Bytes → Outcome Bytes
  -- address.Codec.StringToBytes
  pub string_to_bytes : Bytes → Outcome Bytes
  -- address.Codec.BytesToString
  pub bytes_to_string : Bytes → Outcome Bytes
  -- sdk.NewCoin and sdk.NewCoins: `none` is their panic
  pub new_coin : Bytes → ℤ → Option Coin
  pub new_coins : List Coin → Option Coins
  -- the module's own store (KVStoreService.OpenKVStore), by key
  pub Store : Type 0
  pub kv_get : Bytes → Store → Outcome (Option Bytes)
  pub kv_set : Bytes → Bytes → Action Store Done
  -- collections.Item over a value's codec at a key of that store: Get and Set
  pub item_get : (V : Type 0) → (Bytes → Outcome V) → Bytes → Store → Outcome V
  pub item_set : (V : Type 0) → (V → Outcome Bytes) → Bytes → V → Action Store Done
  -- the bank keeper and its state; a module is named, an account is its address
  pub Bank : Type 0
  pub mint_coins : Bytes → Coins → Action Bank Done
  pub burn_coins : Bytes → Coins → Action Bank Done
  pub send_module_to_account : Bytes → Bytes → Coins → Action Bank Done
  pub send_account_to_module : Bytes → Bytes → Coins → Action Bank Done
  -- the bank's supply of a denom, and an account's balance
  pub supply_of : Bytes → Bank → ℤ
