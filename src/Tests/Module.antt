-- ===== src/Tests/Module.antt =====
-- The module's wiring on the scenario.
use stable_coin.Prelude.{◌≡◌, refl, []}
use stable_coin.Go.Outcome.{ok, ◌>>=◌}
use stable_coin.Types.Genesis.{default_genesis}
use stable_coin.Keeper.State.{init_genesis, export_genesis}
use stable_coin.Wire.Varint.{read_varint, sov, len_bits}
use stable_coin.Wire.Varint.Size.{groups}
use stable_coin.Wire.Buffer.{
  write_byte, copy_at, put_groups, ◌then_write◌, encode_varint, put_bytes, put_byte, put_string,
  put_bool, to_sized_buffer, marshal_with, string_size, bool_size,
}
use stable_coin.Wire.Buffer.Fields.{string_field, bool_field}
use stable_coin.Wire.Decode.{read_string, read_bool, or_skip, unmarshal_loop, unmarshal_with}
use stable_coin.Wire.Params.{fields, unmarshal, marshal, marshal_to_sized_buffer, write, size}
use stable_coin.Wire.Params.RoundTrip.{encoding}
use stable_coin.Wire.Params.Store.{params_codec, params_codec-CodecLaws}
use stable_coin.Wire.ModuleConfig.{ModuleConfig}
use stable_coin.Module.{Addresses, JsonCodec, init_module_genesis, export_module_genesis}
use stable_coin.Module.Genesis.{JsonLaws, module_export-init}
use stable_coin.Example.Chain.{chain, chain-StoreLaws}
use stable_coin.Tests.Scenario.{terms, empty_world, fresh_world}

abbrev addresses : Addresses
addresses = record { new_module_address = λ s. s; new_module_address_or_bech32 = λ s. s }

-- No authority is configured.
abbrev plain : ModuleConfig
plain = record { authority = [] }

-- The bytes of the parameters stand for the JSON text.
abbrev json : JsonCodec
json = record {
  marshal_json = λ gs. params_codec.encode gs.params;
  unmarshal_json = λ bz. params_codec.decode bz >>= λ p. ok (record { params = p });
}

json-JsonLaws : JsonLaws json
json-JsonLaws = record {
  unmarshal-marshal = λ gs bz h. rw (params_codec-CodecLaws.decode-encode gs.params bz h);
}

module_export : export_module_genesis chain json params_codec fresh_world ≡ ok (encoding terms)
unfolding export_module_genesis init_module_genesis export_genesis init_genesis default_genesis
    params_codec unmarshal unmarshal_with unmarshal_loop read_varint read_string read_bool fields
    or_skip encoding string_field bool_field groups marshal marshal_to_sized_buffer write size
    marshal_with to_sized_buffer put_string put_bool put_byte put_bytes encode_varint ◌then_write◌
    put_groups copy_at write_byte string_size bool_size sov len_bits
module_export = refl

module_init :
    init_module_genesis chain json params_codec (encoding terms) empty_world ≡ (ok tt, fresh_world)
unfolding export_module_genesis init_module_genesis export_genesis init_genesis default_genesis
    params_codec unmarshal unmarshal_with unmarshal_loop read_varint read_string read_bool fields
    or_skip encoding string_field bool_field groups marshal marshal_to_sized_buffer write size
    marshal_with to_sized_buffer put_string put_bool put_byte put_bytes encode_varint ◌then_write◌
    put_groups copy_at write_byte string_size bool_size sov len_bits
module_init = refl

module_export-init_example :
    export_module_genesis chain json params_codec fresh_world ≡ ok (encoding terms)
module_export-init_example =
    module_export-init chain json json-JsonLaws params_codec chain-StoreLaws params_codec-CodecLaws
      fresh_world empty_world fresh_world (encoding terms) module_export module_init
