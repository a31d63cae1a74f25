-- ===== src/App/GenesisAccount.antt =====
-- stbchain/app/genesis_account.go.
pub mod Valid
use stable_coin.Prelude.{Bytes, Bool, [], List, not, ◌&&◌, bytes_eq, if◌then◌else◌}
use stable_coin.Prelude.Int.{ℤ, ltb_ℤ}
use stable_coin.Go.Outcome.{Outcome, ok, err, message, Done, raise_if, ◌>>=◌, ◌>>◌}
use stable_coin.Go.Strings.{lit}
use stable_coin.Sdk.{Coins}

-- authtypes.BaseAccount and the Validate methods of x/auth, and Coins.IsZero.
pub record AuthTypes : Type 1 where
  pub BaseAccount : Type 0
  pub validate_base_account : BaseAccount → Outcome Done
  pub validate_module_account : BaseAccount → Bytes → List Bytes → Outcome Done
  pub is_zero : Coins → Bool

pub record GenesisAccount (k : AuthTypes) : Type 0 where
  pub base_account : k.BaseAccount
  pub original_vesting : Coins
  pub delegated_free : Coins
  pub delegated_vesting : Coins
  pub start_time : ℤ
  pub end_time : ℤ
  pub module_name : Bytes
  pub module_permissions : List Bytes

-- GenesisAccount.Validate. The times are compared as `start >= end`.
unfoldable pub validate_account : (k : AuthTypes) → GenesisAccount k → Outcome Done
validate_account k sga = do
  raise_if (not (k.is_zero sga.original_vesting) && not (ltb_ℤ sga.start_time sga.end_time))
      (message (lit "vesting start-time cannot be before end-time"))
  (if not (bytes_eq sga.module_name [])
      then k.validate_module_account sga.base_account sga.module_name sga.module_permissions
      else ok tt)
  k.validate_base_account sga.base_account
