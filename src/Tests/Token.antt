-- ===== src/Tests/Token.antt =====
-- The token machine on the scenario.
use stable_coin.Prelude.{◌≡◌, ◌↔◌, refl, [], some, false}
use stable_coin.Prelude.Int.{pos, ◌+ℤ◌, ◌-ℤ◌}
use stable_coin.Go.Outcome.{ok, err, external}
use stable_coin.Sdk.{Sdk, MathLaws, CoinLaws}
use stable_coin.Go.Strings.{lit, is_blank}
use stable_coin.Keeper.State.{World, get_params, get_total_supply}
use stable_coin.Keeper.Server.{mint, burn, one_coin}
use stable_coin.Keeper.Trace.{Reach, minted, here, next}
use stable_coin.Keeper.Trace.Token.{
  Token, token_run, net, token_step, mint_event, burn_event, grow, shrink,
}
use stable_coin.Keeper.Trace.Token.Steps.{Views}
use stable_coin.Keeper.Trace.Token.Runs.{events, Reach-token_run}
use stable_coin.Keeper.Trace.Token.Net.{Reach-net}
use stable_coin.Keeper.Trace.Token.Accepts.{mint_iff, burn_iff}
use stable_coin.Types.Params.{Params}
use stable_coin.Wire.Params.Store.{params_codec, params_codec-CodecLaws}
use stable_coin.Example.Ledger.{Ledger, supply}
use stable_coin.Example.Chain.{
  chain, chain-MathLaws, chain-StoreLaws, chain-SetLaws, chain-CoinLaws, chain-BankLaws,
}
use stable_coin.Tests.Scenario.{
  terms, gov_keeper, fresh_world, counted_world, fresh_stored, counted_stored, mint_250, burn_150,
  coins,
}
use stable_coin.Tests.Keeper.{
  minted_world, mint_runs, minted_bank, sent_bank, taken_bank, burned_bank, burned_world,
}

abbrev Any : Params → Type 0
Any p = Unit {0}

abbrev Free : Ledger → Ledger → Type 0
Free b b' = Unit {0}

one_mint : Reach chain gov_keeper params_codec Any Free fresh_world minted_world
one_mint = next here (minted mint_250 mint_runs)

-- The token that the fresh state shows.
abbrev fresh_token : Token
fresh_token = record {
  authority = lit "gov";
  issuer = lit "alice";
  denom = lit "ustb";
  paused = false;
  limit = pos 1000;
  total = pos 0;
  supply = λ d. supply d [];
}

fresh-Views : Views chain gov_keeper params_codec fresh_world fresh_token
unfolding get_total_supply
fresh-Views = record {
  params = terms;
  stored = fresh_stored;
  limit = refl;
  terms = (refl, refl, refl, refl);
  counter = refl;
  supply = λ d. refl;
}

-- The token that the counted state shows.
abbrev counted_token : Token
counted_token = record fresh_token { total = pos 400; supply = λ d. supply d counted_world.bank }

counted-Views : Views chain gov_keeper params_codec counted_world counted_token
unfolding get_total_supply
counted-Views = record {
  params = terms;
  stored = counted_stored;
  limit = refl;
  terms = (refl, refl, refl, refl);
  counter = refl;
  supply = λ d. refl;
}

Reach-token_run_example :
    (t' : Token) × (token_run (events chain gov_keeper params_codec one_mint) fresh_token ≡ some t')
    × Views chain gov_keeper params_codec minted_world t'
Reach-token_run_example =
    Reach-token_run chain gov_keeper params_codec chain-MathLaws chain-CoinLaws chain-BankLaws
      chain-StoreLaws chain-SetLaws params_codec-CodecLaws fresh_token one_mint fresh-Views

Reach-net_example :
    get_total_supply chain minted_world
    ≡ ok (pos 0 +ℤ net (events chain gov_keeper params_codec one_mint))
Reach-net_example =
    Reach-net chain gov_keeper params_codec chain-MathLaws chain-CoinLaws chain-BankLaws
      chain-StoreLaws chain-SetLaws params_codec-CodecLaws fresh_token one_mint fresh-Views

-- A chain whose store refuses every write with an error.
abbrev failing : Sdk
failing = record chain { kv_set = λ key value s. (err (external 1), s) }

failing-MathLaws : MathLaws failing
failing-MathLaws = record {
  positive_lem = chain-MathLaws.positive_lem;
  gt_lem = chain-MathLaws.gt_lem;
  lt_lem = chain-MathLaws.lt_lem;
  add_lem = chain-MathLaws.add_lem;
  sub_lem = chain-MathLaws.sub_lem;
  parse_string = chain-MathLaws.parse_string;
}

failing-CoinLaws : CoinLaws failing
failing-CoinLaws = record {
  new_coin_lem = chain-CoinLaws.new_coin_lem;
  new_coins_lem = chain-CoinLaws.new_coins_lem;
}

abbrev failing_world : World failing
failing_world = record { store = fresh_world.store; bank = [] }

abbrev uncounted_world : World failing
uncounted_world = record { store = fresh_world.store; bank = sent_bank }

failing-Views : Views failing gov_keeper params_codec failing_world fresh_token
unfolding get_total_supply get_params
failing-Views = record {
  params = terms;
  stored = fresh_stored;
  limit = refl;
  terms = (refl, refl, refl, refl);
  counter = refl;
  supply = λ d. refl;
}

mint_iff_example : (mint failing params_codec mint_250 failing_world ≡ (ok tt, uncounted_world)) ↔ (
    token_step (mint_event (lit "alice") (some (pos 250))) fresh_token
    ≡ some (grow (pos 250) fresh_token))
unfolding one_coin ◌+ℤ◌ ◌-ℤ◌ is_blank
mint_iff_example =
    mint_iff failing gov_keeper params_codec failing-MathLaws failing-CoinLaws fresh_token
      failing-Views mint_250 (pos 250) (pos 250) (lit "bob") (coins 250) minted_bank sent_bank
      (err (external 1)) fresh_world.store refl refl refl refl refl refl refl (λ e. cc)

burn_iff_example : (burn chain params_codec burn_150 counted_world ≡ (ok tt, burned_world)) ↔ (
    token_step (burn_event (lit "alice") (some (pos 150))) counted_token
    ≡ some (shrink (pos 150) counted_token))
unfolding one_coin ◌+ℤ◌ ◌-ℤ◌ is_blank
burn_iff_example =
    burn_iff chain gov_keeper params_codec chain-MathLaws chain-CoinLaws counted_token counted-Views
      chain-BankLaws chain-StoreLaws chain-SetLaws burn_150 (pos 150) (pos 250) (lit "bob")
      (coins 150) taken_bank burned_bank burned_world.store refl refl refl refl refl refl refl
