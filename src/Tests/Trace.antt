-- ===== src/Tests/Trace.antt =====
-- Sequences of messages, updates, genesis and queries on the scenario.
use mathlib.Core.Path.{subst}
use stable_coin.Prelude.{◌≡◌, ◌↔◌, refl, sym, ap, ◌∙◌, [], none, arith}
use stable_coin.Prelude.Int.{pos, ◌+ℤ◌}
use stable_coin.Go.Outcome.{panic, ok_inj, ok}
use stable_coin.Go.Strings.{lit, is_blank}
use stable_coin.Types.Params.{Params, validate}
use stable_coin.Types.Params.Valid.{IsValid, validate_iff}
use stable_coin.Types.Messages.{MsgUpdateParams}
use stable_coin.Types.Genesis.{GenesisState, default_genesis}
use stable_coin.Keeper.State.{
  World, get_params, get_total_supply, set_params, init_genesis, export_genesis,
}
use stable_coin.Keeper.State.Genesis.{import_resets_counter}
use stable_coin.Keeper.Server.{mint}
use stable_coin.Keeper.Update.{update_params, update_checks}
use stable_coin.Keeper.State.{get_authority}
use stable_coin.Keeper.Update.Effect.{update_checks_iff, update_params-ok}
use stable_coin.Keeper.Trace.{Reach, minted, here, next}
use stable_coin.Keeper.Trace.Cap.{IsWithin, IsCapped, Reach-IsCapped}
use stable_coin.Keeper.Trace.Backing.{IsBacked, Reach-IsBacked}
use stable_coin.Wire.Varint.{read_varint, sov, len_bits}
use stable_coin.Wire.Varint.Size.{groups}
use stable_coin.Wire.Buffer.{
  write_byte, copy_at, put_groups, ◌then_write◌, encode_varint, put_bytes, put_byte, put_string,
  put_bool, to_sized_buffer, marshal_with, string_size, bool_size,
}
use stable_coin.Wire.Buffer.Fields.{string_field, bool_field}
use stable_coin.Wire.Decode.{read_string, read_bool, or_skip, unmarshal_loop, unmarshal_with}
use stable_coin.Wire.Params.{fields, unmarshal, marshal, marshal_to_sized_buffer, write, size}
use stable_coin.Wire.Params.RoundTrip.{encoding}
use stable_coin.Wire.Params.Store.{params_codec, params_codec-CodecLaws}
use stable_coin.Example.Ledger.{Ledger, supply}
use stable_coin.Example.Chain.{
  chain, chain-MathLaws, chain-StoreLaws, chain-SetLaws, chain-CoinLaws, chain-BankLaws,
}
use stable_coin.Tests.Scenario.{
  terms, gov_keeper, with_params, empty_world, fresh_world, fresh_stored, mint_250, new_terms,
}
use stable_coin.Keeper.Update.Denom.{update_params-mint_panics}
use stable_coin.Tests.Keeper.{plan_250, minted_world, mint_runs}

only_terms : (p : Params) → get_params chain params_codec fresh_world ≡ ok (p, none) → terms ≡ p
only_terms p h = ap (λ x. x.0) (ok_inj (sym fresh_stored ∙ h))

terms-IsWithin : IsWithin chain (pos 1000) terms
terms-IsWithin m h = ground arith

abbrev Free : Ledger → Ledger → Type 0
Free b b' = Unit {0}

abbrev Neutral : Ledger → Ledger → Type 0
Neutral b b' = supply (lit "ustb") b' ≡ supply (lit "ustb") b

one_mint :
    Reach chain gov_keeper params_codec (IsWithin chain (pos 1000)) Free fresh_world minted_world
one_mint = next here (minted mint_250 mint_runs)

fresh-IsCapped : IsCapped chain params_codec (pos 1000) fresh_world
unfolding get_total_supply
fresh-IsCapped = record {
  total = pos 0;
  counter = refl;
  nonneg = omega arith;
  capped = omega arith;
  limited = λ p h. subst (IsWithin chain (pos 1000)) (only_terms p h) terms-IsWithin;
}

Reach-IsCapped_example : IsCapped chain params_codec (pos 1000) minted_world
Reach-IsCapped_example =
    Reach-IsCapped chain gov_keeper params_codec chain-MathLaws chain-CoinLaws chain-BankLaws
      chain-StoreLaws chain-SetLaws params_codec-CodecLaws (pos 1000) one_mint fresh-IsCapped

one_ustb_mint :
    Reach chain gov_keeper params_codec (λ p. p.denom ≡ lit "ustb") Neutral fresh_world minted_world
one_ustb_mint = next here (minted mint_250 mint_runs)

fresh-IsBacked : IsBacked chain params_codec (lit "ustb") (pos 0) fresh_world
unfolding get_total_supply ◌+ℤ◌
fresh-IsBacked = record {
  total = pos 0;
  counter = refl;
  backed = refl;
  denom = λ p h. sym (ap (λ q. q.denom) (only_terms p h));
}

Reach-IsBacked_example : IsBacked chain params_codec (lit "ustb") (pos 0) minted_world
Reach-IsBacked_example =
    Reach-IsBacked chain gov_keeper params_codec chain-MathLaws chain-CoinLaws chain-BankLaws
      chain-StoreLaws chain-SetLaws params_codec-CodecLaws (lit "ustb") (pos 0) one_ustb_mint
      fresh-IsBacked

abbrev pub updated_world : World chain
updated_world = record { store = with_params new_terms.params fresh_world.store; bank = [] }

pub update_runs :
    update_params chain gov_keeper params_codec new_terms fresh_world ≡ (ok tt, updated_world)
unfolding update_params update_checks validate get_authority set_params default_genesis is_blank
    params_codec unmarshal unmarshal_with unmarshal_loop read_varint read_string read_bool fields
    or_skip encoding string_field bool_field groups marshal marshal_to_sized_buffer write size
    marshal_with to_sized_buffer put_string put_bool put_byte put_bytes encode_varint ◌then_write◌
    put_groups copy_at write_byte string_size bool_size sov len_bits
update_runs = refl

update_params-ok_example :
    (chain.string_to_bytes (lit "gov") ≡ ok (lit "gov"))
    × IsValid chain new_terms.params
    × (get_params chain params_codec updated_world ≡ ok (new_terms.params, none))
    × (get_total_supply chain updated_world ≡ get_total_supply chain fresh_world)
    × (updated_world.bank ≡ fresh_world.bank)
update_params-ok_example =
    update_params-ok chain gov_keeper chain-MathLaws new_terms params_codec chain-StoreLaws
      params_codec-CodecLaws fresh_world updated_world update_runs

update_checks_iff_example :
    (update_checks chain gov_keeper new_terms ≡ ok tt)
    ↔ ((chain.string_to_bytes (lit "gov") ≡ ok (lit "gov")) × IsValid chain new_terms.params)
update_checks_iff_example = update_checks_iff chain gov_keeper chain-MathLaws new_terms

validate_iff_example : (validate chain terms ≡ ok tt) ↔ IsValid chain terms
validate_iff_example = validate_iff chain chain-MathLaws terms

abbrev exported : GenesisState
exported = record { params = terms }

init_runs : init_genesis chain params_codec exported empty_world ≡ (ok tt, fresh_world)
unfolding init_genesis update_checks validate get_authority set_params default_genesis is_blank
    params_codec unmarshal unmarshal_with unmarshal_loop read_varint read_string read_bool fields
    or_skip encoding string_field bool_field groups marshal marshal_to_sized_buffer write size
    marshal_with to_sized_buffer put_string put_bool put_byte put_bytes encode_varint ◌then_write◌
    put_groups copy_at write_byte string_size bool_size sov len_bits
init_runs = refl

export_runs : export_genesis chain params_codec minted_world ≡ ok exported
unfolding export_genesis update_checks validate get_authority set_params default_genesis is_blank
    params_codec unmarshal unmarshal_with unmarshal_loop read_varint read_string read_bool fields
    or_skip encoding string_field bool_field groups marshal marshal_to_sized_buffer write size
    marshal_with to_sized_buffer put_string put_bool put_byte put_bytes encode_varint ◌then_write◌
    put_groups copy_at write_byte string_size bool_size sov len_bits
export_runs = refl

import_resets_counter_example :
    (get_params chain params_codec fresh_world ≡ get_params chain params_codec minted_world)
    × (get_total_supply chain fresh_world ≡ ok (pos 0))
import_resets_counter_example =
    import_resets_counter chain params_codec chain-StoreLaws params_codec-CodecLaws minted_world
      empty_world fresh_world exported export_runs refl init_runs

-- Governance sets a denom of one letter.
abbrev bad_update : MsgUpdateParams
bad_update = record new_terms { params = record terms { denom = lit "u" } }

abbrev bad_world : World chain
bad_world = record { store = with_params bad_update.params fresh_world.store; bank = [] }

bad_update_runs :
    update_params chain gov_keeper params_codec bad_update fresh_world ≡ (ok tt, bad_world)
unfolding update_params update_checks validate get_authority set_params default_genesis is_blank
    params_codec unmarshal unmarshal_with unmarshal_loop read_varint read_string read_bool fields
    or_skip encoding string_field bool_field groups marshal marshal_to_sized_buffer write size
    marshal_with to_sized_buffer put_string put_bool put_byte put_bytes encode_varint ◌then_write◌
    put_groups copy_at write_byte string_size bool_size sov len_bits
bad_update_runs = refl

update_params-mint_panics_example : mint chain params_codec mint_250 bad_world ≡ (panic, bad_world)
unfolding get_total_supply ◌+ℤ◌ is_blank
update_params-mint_panics_example =
    update_params-mint_panics chain gov_keeper params_codec chain-MathLaws chain-StoreLaws
      params_codec-CodecLaws bad_update mint_250 fresh_world bad_world plan_250 (pos 1000) (pos 250)
      bad_update_runs refl refl refl refl (omega arith) refl refl refl (omega arith) refl
