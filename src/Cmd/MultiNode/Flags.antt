-- ===== src/Cmd/MultiNode/Flags.antt =====
-- RunE of NewTestnetMultiNodeCmd: the arguments from the flags.
use stable_coin.Prelude.{
  ◌*◌, ℕ, zero, suc, ◌+◌, Bytes, List, [], ◌∷◌, Option, none, some, bytes_eq, if◌then◌else◌,
}
use stable_coin.Prelude.Int.{ℤ, pos_part, pos, ◌-ℤ◌}
use stable_coin.Go.Outcome.{◌>>=◌, Outcome, ok, or_panic}
use stable_coin.Go.IntMap.{IntMap, put}
use stable_coin.Go.Strings.{lit}
use stable_coin.Go.Strings.Split.{split}
use stable_coin.Go.Strings.Itoa.{itoa}
use stable_coin.Sdk.{Sdk, Coin}

pub record InitArgs : Type 0 where
  pub algo : Bytes
  pub chain_id : Bytes
  pub keyring_backend : Bytes
  pub min_gas_prices : Bytes
  pub node_dir_prefix : Bytes
  pub num_validators : ℤ
  pub output_dir : Bytes
  pub starting_ip_address : Bytes
  pub validators_stakes_amount : IntMap Coin
  pub ports : IntMap Bytes

-- The values of the flags. For the last two an error of GetString is `none`; for the others it is
-- dropped and the value is the empty one.
pub record Flags : Type 0 where
  pub output_dir : Bytes
  pub keyring_backend : Bytes
  pub chain_id : Bytes
  pub min_gas_prices : Bytes
  pub node_dir_prefix : Bytes
  pub starting_ip_address : Bytes
  pub num_validators : ℤ
  pub key_type : Bytes
  pub validators_stake_amount : Option Bytes
  pub list_ports : Option Bytes

-- The bond denom that app/config.go sets.
abbrev pub default_bond_denom : Bytes
default_bond_denom = lit "stake"

-- `if !ok { continue }`
abbrev or_continue : {A : Type 0} → Option ℤ → (ℤ → Outcome A) → Outcome A → Outcome A
or_continue none body next = next
or_continue (some a) body next = body a

-- The loop over the ports of the flag.
unfoldable pub listed_ports : List Bytes → ℕ → IntMap Bytes → IntMap Bytes
listed_ports [] top m = m
listed_ports (text ∷ texts) top m = listed_ports texts (top + 1) (put top text m)

-- The loop for an empty flag, with `n` rounds left.
unfoldable pub default_ports : ℕ → ℕ → IntMap Bytes → IntMap Bytes
default_ports zero i m = m
default_ports (suc n) i m = default_ports n (i + 1) (put i (itoa (pos 26657 -ℤ pos (3 * i))) m)

unfoldable pub parse_ports : ℤ → Option Bytes → IntMap Bytes
parse_ports n none = []
parse_ports n (some s) =
    if bytes_eq s [] then default_ports (pos_part n) 0 [] else listed_ports (split 44 s) 0 []

module _ (k : Sdk) where
  -- The loop over the stakes: an amount that is no number does not count.
  unfoldable pub parse_stakes : List Bytes → ℕ → IntMap Coin → Outcome (IntMap Coin)
  parse_stakes [] top m = ok m
  parse_stakes (amount ∷ amounts) top m =
      or_continue (k.new_int_from_string amount)
        (λ a. or_panic (k.new_coin default_bond_denom a) >>= λ coin.
          parse_stakes amounts (top + 1) (put top coin m))
        (parse_stakes amounts top m)

  abbrev stakes_of : Option Bytes → Outcome (IntMap Coin)
  stakes_of none = ok []
  stakes_of (some s) = parse_stakes (split 44 s) 0 []

  unfoldable pub parse_args : Flags → Outcome InitArgs
  parse_args flags = stakes_of flags.validators_stake_amount >>= λ stakes. ok (record {
    algo = flags.key_type;
    chain_id = flags.chain_id;
    keyring_backend = flags.keyring_backend;
    min_gas_prices = flags.min_gas_prices;
    node_dir_prefix = flags.node_dir_prefix;
    num_validators = flags.num_validators;
    output_dir = flags.output_dir;
    starting_ip_address = flags.starting_ip_address;
    validators_stakes_amount = stakes;
    ports = parse_ports flags.num_validators flags.list_ports;
  })
