-- ===== src/Tests/Keeper.antt =====
-- The handlers on the scenario.
use stable_coin.Prelude.{◌≡◌, refl, Bytes, [], arith}
use stable_coin.Prelude.Int.{pos, ◌+ℤ◌, ◌-ℤ◌}
use stable_coin.Go.Outcome.{ok, err, not_issuer, supply_underflow, external}
use stable_coin.Go.Strings.{lit, is_blank}
use stable_coin.Sdk.{amount_of}
use stable_coin.Types.Params.{total_supply_key}
use stable_coin.Keeper.State.{World, get_params, get_total_supply, set_total_supply}
use stable_coin.Keeper.Server.{
  MintPlan, BurnPlan, mint, burn, mint_checks, burn_checks, mint_effects, burn_effects, one_coin,
  positive_amount,
}
use stable_coin.Keeper.Server.Checks.{BurnGranted}
use stable_coin.Keeper.Server.Mint.{MintDone, mint-MintDone}
use stable_coin.Keeper.Server.Burn.{BurnDone, burn-BurnDone, burn_underflow}
use stable_coin.Keeper.Server.Refusals.{refused_lem, failed_keeps_store}
use stable_coin.Wire.Varint.{read_varint}
use stable_coin.Wire.Varint.Size.{groups}
use stable_coin.Wire.Buffer.Fields.{string_field, bool_field}
use stable_coin.Wire.Decode.{read_string, read_bool, or_skip, unmarshal_loop, unmarshal_with}
use stable_coin.Wire.Params.{fields, unmarshal}
use stable_coin.Wire.Params.RoundTrip.{encoding}
use stable_coin.Wire.Params.Store.{params_codec}
use stable_coin.Example.Ledger
use stable_coin.Example.Chain.{
  chain, set_value, chain-MathLaws, chain-StoreLaws, chain-SetLaws, chain-CoinLaws, chain-BankLaws,
}
use stable_coin.Tests.Scenario.{
  terms, fresh_world, held, counted_world, fresh_stored, mint_250, burn_150, stolen_mint,
  stolen_burn, coins,
}

abbrev pub plan_250 : MintPlan
plan_250 = record { amount = pos 250; current_supply = pos 0; to = lit "bob"; coins = coins 250 }

abbrev pub minted_bank : Ledger.Ledger
minted_bank = (Ledger.mint (lit "stablecoin") (coins 250) []).1

abbrev pub sent_bank : Ledger.Ledger
sent_bank = (Ledger.send (lit "stablecoin") (lit "bob") (coins 250) minted_bank).1

abbrev pub minted_world : World chain
minted_world = record {
  store = set_value total_supply_key (lit "250") fresh_world.store;
  bank = sent_bank;
}

-- The handlers run on the scenario.
pub mint_runs : mint chain params_codec mint_250 fresh_world ≡ (ok tt, minted_world)
unfolding mint mint_checks mint_effects burn burn_checks burn_effects set_total_supply
    positive_amount one_coin get_params params_codec unmarshal unmarshal_with unmarshal_loop
    read_varint read_string read_bool fields or_skip encoding string_field bool_field groups
    get_total_supply ◌+ℤ◌ ◌-ℤ◌ is_blank
mint_runs = refl

stolen_mint_runs : mint chain params_codec stolen_mint fresh_world ≡ (err not_issuer, fresh_world)
unfolding mint mint_checks mint_effects burn burn_checks burn_effects set_total_supply
    positive_amount one_coin get_params params_codec unmarshal unmarshal_with unmarshal_loop
    read_varint read_string read_bool fields or_skip encoding string_field bool_field groups
    get_total_supply ◌+ℤ◌ ◌-ℤ◌ is_blank
stolen_mint_runs = refl

mint-MintDone_example : MintDone chain params_codec mint_250 fresh_world minted_world
mint-MintDone_example =
    mint-MintDone chain params_codec chain-MathLaws chain-CoinLaws chain-BankLaws chain-StoreLaws
      chain-SetLaws mint_250 fresh_world minted_world mint_runs

abbrev plan_150 : BurnPlan
plan_150 = record { from = lit "bob"; amount = pos 150; coins = coins 150 }

abbrev pub taken_bank : Ledger.Ledger
taken_bank = (Ledger.send (lit "bob") (lit "stablecoin") (coins 150) held).1

abbrev pub burned_bank : Ledger.Ledger
burned_bank = (Ledger.burn (lit "stablecoin") (coins 150) taken_bank).1

abbrev pub burned_world : World chain
burned_world = record {
  store = set_value total_supply_key (lit "250") counted_world.store;
  bank = burned_bank;
}

pub burn_runs : burn chain params_codec burn_150 counted_world ≡ (ok tt, burned_world)
unfolding mint mint_checks mint_effects burn burn_checks burn_effects set_total_supply
    positive_amount one_coin get_params params_codec unmarshal unmarshal_with unmarshal_loop
    read_varint read_string read_bool fields or_skip encoding string_field bool_field groups
    get_total_supply ◌+ℤ◌ ◌-ℤ◌ is_blank
burn_runs = refl

burn-BurnDone_example : BurnDone chain params_codec burn_150 counted_world burned_world
burn-BurnDone_example =
    burn-BurnDone chain params_codec chain-MathLaws chain-CoinLaws chain-BankLaws chain-StoreLaws
      chain-SetLaws burn_150 counted_world burned_world burn_runs

-- Bob holds coins that the counter does not know.
abbrev uncounted_world : World chain
uncounted_world = record { store = fresh_world.store; bank = held }

abbrev uncounted_granted : BurnGranted chain params_codec burn_150 uncounted_world plan_150
unfolding is_blank get_params
uncounted_granted = record {
  params = terms;
  stored = fresh_stored;
  running = refl;
  by_issuer = refl;
  holder = refl;
  parsed = refl;
  positive = omega arith;
  paid = refl;
}

burn_underflow_example :
    (burn chain params_codec burn_150 uncounted_world
      ≡ (err supply_underflow, record { store = fresh_world.store; bank = burned_bank }))
    × ((d : Bytes)
        → chain.supply_of d burned_bank ≡ chain.supply_of d held -ℤ amount_of d (coins 150))
unfolding one_coin ◌+ℤ◌ ◌-ℤ◌ get_total_supply uncounted_granted
burn_underflow_example =
    burn_underflow chain params_codec chain-MathLaws chain-BankLaws burn_150 uncounted_world
      plan_150 (pos 0) taken_bank burned_bank uncounted_granted refl refl refl refl (omega arith)

refused_lem_example :
    (mint chain params_codec stolen_mint fresh_world ≡ (err not_issuer, fresh_world))
    × (burn chain params_codec stolen_burn fresh_world ≡ (err not_issuer, fresh_world))
refused_lem_example =
    refused_lem chain params_codec fresh_world terms fresh_stored stolen_mint stolen_burn not_issuer
      not_issuer refl refl

-- The coins that bob should give back are not his.
abbrev poor_world : World chain
poor_world = record { store = counted_world.store; bank = [] }

failed_burn : burn chain params_codec burn_150 poor_world ≡ (err (external 5), poor_world)
unfolding burn burn_checks burn_effects positive_amount one_coin get_params params_codec unmarshal
    unmarshal_with unmarshal_loop read_varint read_string read_bool fields or_skip encoding
    string_field bool_field groups get_total_supply ◌+ℤ◌ ◌-ℤ◌ is_blank
failed_burn = refl

failed_keeps_store_example :
    (fresh_world.store ≡ fresh_world.store) × (poor_world.store ≡ poor_world.store)
failed_keeps_store_example =
    failed_keeps_store chain params_codec stolen_mint burn_150 fresh_world fresh_world poor_world
      poor_world not_issuer (external 5) stolen_mint_runs failed_burn
