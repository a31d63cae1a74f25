-- ===== src/App/GenesisAccount/Valid.antt =====
-- Which genesis accounts pass.
use stable_coin.Prelude.{◌≡◌, ◌↔◌, [], false, not, ◌&&◌, bytes_eq, if◌then◌else◌, arith}
use stable_coin.Prelude.Int.{◌<ℤ◌, ltb_ℤ}
use stable_coin.Go.Outcome.{ok, >>=-eq-ok, raise_if-eq-ok}
use stable_coin.App.GenesisAccount.{AuthTypes, GenesisAccount, validate_account}

-- Vesting that starts before it ends, where there is any; a valid module account, where a module
-- is named; and a valid base account.
pub record IsValidAccount (k : AuthTypes) (sga : GenesisAccount k) : Type 0 where
  pub vesting : k.is_zero sga.original_vesting ≡ false → sga.start_time <ℤ sga.end_time
  pub of_module :
      bytes_eq sga.module_name [] ≡ false
      → k.validate_module_account sga.base_account sga.module_name sga.module_permissions ≡ ok tt
  pub base : k.validate_base_account sga.base_account ≡ ok tt

module _ (k : AuthTypes) (sga : GenesisAccount k) where
  validate_account→IsValidAccount : validate_account k sga ≡ ok tt → IsValidAccount k sga
  unfolding validate_account
  validate_account→IsValidAccount h =
      let (times, h₁) =
        raise_if-eq-ok
          (not (k.is_zero sga.original_vesting) && not (ltb_ℤ sga.start_time sga.end_time)) _ _ h in
      let (_, named, h₂) =
        >>=-eq-ok
          (if not (bytes_eq sga.module_name [])
            then k.validate_module_account sga.base_account sga.module_name sga.module_permissions
            else ok tt)
          _ h₁ in
      record {
        vesting = λ z. ground (arith, times, z);
        of_module = λ n. ground (arith, named, n);
        base = h₂;
      }

  IsValidAccount→validate_account : IsValidAccount k sga → validate_account k sga ≡ ok tt
  unfolding validate_account
  IsValidAccount→validate_account v = ground (arith, v.vesting, v.of_module, v.base)

  -- Validate accepts exactly the accounts whose vesting, if any, starts before it ends, whose
  -- module account is valid where a module is named, and whose base account is valid.
  pub validate_account_iff : (validate_account k sga ≡ ok tt) ↔ IsValidAccount k sga
  validate_account_iff = (validate_account→IsValidAccount, IsValidAccount→validate_account)
