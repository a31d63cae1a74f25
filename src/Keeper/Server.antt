-- ===== src/Keeper/Server.antt =====
-- msg_server.go: Mint and Burn. All that a handler does before its first call of the bank only
-- reads; it is a function of its own, which returns what the rest of the handler uses.
pub mod Checks
pub mod Effects
pub mod Mint
pub mod Burn
pub mod Refusals
use stable_coin.Prelude.{Bytes, not, [], ◌∷◌, bytes_eq, if◌then◌else◌}
use stable_coin.Prelude.Int.{ℤ}
use stable_coin.Go.Outcome.{
  Outcome, ok, err, panic, Done, Action, after, reading, raise_if, or_raise, or_panic, check_err,
  ◌>>=◌, ◌>>◌, paused, not_issuer, invalid_amount, bad_max_supply, exceeds_max_supply,
  supply_underflow,
}
use stable_coin.Sdk.{Sdk, Coins}
use stable_coin.Types.Params.{Params, ParamsCodec, module_name}
use stable_coin.Types.Messages.{MsgMint, MsgBurn}
use stable_coin.Keeper.State.{World, on_bank, get_params, get_total_supply, set_total_supply}

-- The variables of a handler at its first call of the bank.
pub record MintPlan : Type 0 where
  pub amount : ℤ
  pub current_supply : ℤ
  pub to : Bytes
  pub coins : Coins

pub record BurnPlan : Type 0 where
  pub from : Bytes
  pub amount : ℤ
  pub coins : Coins

module _ (k : Sdk) where
  -- `amount, ok := NewIntFromString(…); if !ok || !amount.IsPositive()`
  unfoldable pub positive_amount : Bytes → Outcome ℤ
  positive_amount text = do
    amount ← or_raise (k.new_int_from_string text) invalid_amount
    raise_if (not (k.int_is_positive amount)) invalid_amount
    ok amount

  -- `sdk.NewCoins(sdk.NewCoin(denom, amount))`
  unfoldable pub one_coin : Bytes → ℤ → Outcome Coins
  one_coin denom amount = do
    coin ← or_panic (k.new_coin denom amount)
    or_panic (k.new_coins (coin ∷ []))

  -- From `MintCoins` on. The sum is computed again, as in the source.
  unfoldable pub mint_effects : MintPlan → Action (World k) Done
  mint_effects plan w = after (on_bank k (k.mint_coins module_name plan.coins) w) λ _ w₁.
      after (on_bank k (k.send_module_to_account module_name plan.to plan.coins) w₁) λ _ w₂.
        after (reading (λ _. or_panic (k.int_add plan.current_supply plan.amount)) w₂)
          λ supply w₃. set_total_supply k supply w₃

  -- From `SendCoinsFromAccountToModule` on. The counter is read and tested after the burn.
  unfoldable pub burn_effects : BurnPlan → Action (World k) Done
  burn_effects plan w =
      after (on_bank k (k.send_account_to_module plan.from module_name plan.coins) w) λ _ w₁.
        after (on_bank k (k.burn_coins module_name plan.coins) w₁) λ _ w₂.
          after (reading (get_total_supply k) w₂) λ supply w₃.
            if k.int_lt supply plan.amount
            then (err supply_underflow, w₃)
            else after (reading (λ _. or_panic (k.int_sub supply plan.amount)) w₃)
                (set_total_supply k)

  module _ (c : ParamsCodec) where
    unfoldable pub mint_checks : MsgMint → World k → Outcome MintPlan
    mint_checks msg w = do
      p ← (get_params k c w >>= check_err)
      raise_if p.paused paused
      raise_if (not (bytes_eq msg.authority p.issuer)) not_issuer
      amount ← positive_amount msg.amount
      max ← or_raise (k.new_int_from_string p.max_supply) bad_max_supply
      current ← get_total_supply k w
      sum ← or_panic (k.int_add current amount)
      raise_if (k.int_gt sum max) exceeds_max_supply
      to ← k.acc_address_from_bech32 msg.to_address
      coins ← one_coin p.denom amount
      ok (record { amount = amount; current_supply = current; to = to; coins = coins })

    -- Mint
    unfoldable pub mint : MsgMint → Action (World k) Done
    mint msg w = after (reading (mint_checks msg) w) mint_effects

    unfoldable pub burn_checks : MsgBurn → World k → Outcome BurnPlan
    burn_checks msg w = do
      p ← (get_params k c w >>= check_err)
      raise_if p.paused paused
      raise_if (not (bytes_eq msg.authority p.issuer)) not_issuer
      from ← k.acc_address_from_bech32 msg.from_address
      amount ← positive_amount msg.amount
      coins ← one_coin p.denom amount
      ok (record { from = from; amount = amount; coins = coins })

    -- Burn
    unfoldable pub burn : MsgBurn → Action (World k) Done
    burn msg w = after (reading (burn_checks msg) w) burn_effects
