-- ===== src/Sdk/Laws.antt =====
-- What the documentation of the libraries promises, as far as the theorems rely on it. A theorem
-- names the records that it needs.
use stable_coin.Prelude.{◌≡◌, ◌≢◌, ◌^◌, ◌<◌, some, [], ◌∷◌, Bytes, false, if◌then◌else◌, bytes_eq}
use stable_coin.Prelude.Int.{ℤ, pos, pos_part, neg_part, ◌+ℤ◌, ◌-ℤ◌, ◌<ℤ◌, ltb_ℤ}
use stable_coin.Go.Outcome.{Error, Outcome, ok, err}
use stable_coin.Sdk.Ops.{Sdk, Coin, Coins}

-- An Int holds at most 256 bits and a sign.
abbrev pub IsInt : ℤ → Type 0
IsInt a = (pos_part a < 2 ^ 256) × (neg_part a < 2 ^ 256)

-- cosmossdk.io/math: the comparisons are those of the integers, a sum that is returned is the sum,
-- and what `String` prints of an Int is read back.
pub record MathLaws (k : Sdk) : Type 0 where
  pub positive_lem : (a : ℤ) → k.int_is_positive a ≡ ltb_ℤ (pos 0) a
  pub gt_lem : (a b : ℤ) → k.int_gt a b ≡ ltb_ℤ b a
  pub lt_lem : (a b : ℤ) → k.int_lt a b ≡ ltb_ℤ a b
  pub add_lem : (a b c : ℤ) → k.int_add a b ≡ some c → (c ≡ a +ℤ b) × IsInt c
  pub sub_lem : (a b c : ℤ) → k.int_sub a b ≡ some c → (c ≡ a -ℤ b) × IsInt c
  pub parse_string : (a : ℤ) → IsInt a → k.new_int_from_string (k.int_string a) ≡ some a

-- The store: what was set is read back, raw or as an item, and the other key keeps its value.
pub record StoreLaws (k : Sdk) : Type 1 where
  pub get-set :
      (key value : Bytes) (s s' : k.Store)
      → k.kv_set key value s ≡ (ok tt, s')
      → k.kv_get key s' ≡ ok (some value)
  pub item_get-item_set :
      (V : Type 0) (encode : V → Outcome Bytes) (decode : Bytes → Outcome V)
      → (key : Bytes) (v : V) (s s' : k.Store)
      → ((bz : Bytes) → encode v ≡ ok bz → decode bz ≡ ok v)
      → k.item_set V encode key v s ≡ (ok tt, s')
      → k.item_get V decode key s' ≡ ok v
  pub item_get-set_ne :
      (V : Type 0) (decode : Bytes → Outcome V) (key value other : Bytes) (s s' : k.Store)
      → k.kv_set key value s ≡ (ok tt, s')
      → bytes_eq key other ≡ false
      → k.item_get V decode other s' ≡ k.item_get V decode other s
  pub get-item_set_ne :
      (V : Type 0) (encode : V → Outcome Bytes) (key : Bytes) (v : V)
      → (other : Bytes) (s s' : k.Store) → k.item_set V encode key v s ≡ (ok tt, s')
      → bytes_eq key other ≡ false
      → k.kv_get other s' ≡ k.kv_get other s

-- The store's Set never returns an error (an exhausted gas limit is a panic). Only what rests on
-- the discarded error of `SetTotalSupply` needs this.
pub record SetLaws (k : Sdk) : Type 0 where
  pub set-ne-err :
      (key value : Bytes) (s s' : k.Store) (e : Error) → k.kv_set key value s ≢ (err e, s')

-- sdk.NewCoin, and sdk.NewCoins on one coin of a positive amount.
pub record CoinLaws (k : Sdk) : Type 0 where
  pub new_coin_lem :
      (d : Bytes) (a : ℤ) (c : Coin) → k.new_coin d a ≡ some c → (c.denom ≡ d) × (c.amount ≡ a)
  pub new_coins_lem :
      (c : Coin) (cs : Coins) → pos 0 <ℤ c.amount → k.new_coins (c ∷ []) ≡ some cs → cs ≡ c ∷ []

-- The sum of the coins of one denom.
abbrev pub amount_of : Bytes → Coins → ℤ
amount_of d [] = pos 0
amount_of d (c ∷ cs) = (if bytes_eq c.denom d then c.amount else pos 0) +ℤ amount_of d cs

-- The bank keeper: minting and burning change the supply by the coins, and sending does not.
pub record BankLaws (k : Sdk) : Type 0 where
  pub supply-mint :
      (m : Bytes) (cs : Coins) (b b' : k.Bank) (d : Bytes)
      → k.mint_coins m cs b ≡ (ok tt, b')
      → k.supply_of d b' ≡ k.supply_of d b +ℤ amount_of d cs
  pub supply-burn :
      (m : Bytes) (cs : Coins) (b b' : k.Bank) (d : Bytes)
      → k.burn_coins m cs b ≡ (ok tt, b')
      → k.supply_of d b' ≡ k.supply_of d b -ℤ amount_of d cs
  pub supply-send_out :
      (m to : Bytes) (cs : Coins) (b b' : k.Bank) (d : Bytes)
      → k.send_module_to_account m to cs b ≡ (ok tt, b')
      → k.supply_of d b' ≡ k.supply_of d b
  pub supply-send_in :
      (from m : Bytes) (cs : Coins) (b b' : k.Bank) (d : Bytes)
      → k.send_account_to_module from m cs b ≡ (ok tt, b')
      → k.supply_of d b' ≡ k.supply_of d b
