-- ===== src/Cmd/AppExport.antt =====
-- stbchain/cmd/stbchaind/cmd/commands.go: newApp and appExport.
pub mod Loads
use stable_coin.Prelude.{
  Bytes, Bool, true, false, not, ◌==◌, List, [], Option, bytes_eq, if◌then◌else◌,
}
use stable_coin.Prelude.Int.{ℤ, pos, negsuc}
use stable_coin.Go.Outcome.{◌>>=◌, Error, Outcome, ok, err, Done, message, raise_if}
use stable_coin.Go.Strings.{lit}
use stable_coin.App.Keepers.{Keepers}
use stable_coin.App.Runtime.{Runtime}
use stable_coin.App.New.{finished, new}
use stable_coin.App.Export.{ExportedApp, export_app_state_and_validators}
use stable_coin.Cmd.InPlace.{OptionValue, text}

-- The app of app.New has a store that the export works on.
pub record NewApp (k : Keepers) : Type 1 where
  pub runtime : Runtime
  pub store_of : runtime.App → k.Store

abbrev pub text_of : OptionValue → Bytes
text_of (text home) = home
text_of v = []

abbrev is_latest : ℤ → Bool
is_latest (pos h) = false
is_latest (negsuc h) = h == 0

module _ (k : Keepers) (apps : NewApp k) where
  unfoldable pub new_app : apps.runtime.Options → Outcome apps.runtime.App
  new_app opts = new apps.runtime true opts (apps.runtime.default_options opts)

  -- The app at a height, -1 for the latest.
  unfoldable pub app_at : apps.runtime.Options → ℤ → Outcome apps.runtime.App
  app_at opts height =
      if is_latest height
      then new apps.runtime true opts []
      else new apps.runtime false opts [] >>= λ app.
          finished apps.runtime (apps.runtime.load_height height app)

  -- The options have a home or another value there, and they are a Viper or not.
  unfoldable pub app_export :
      apps.runtime.Options
      → OptionValue
      → Bool
      → ℤ
      → Bool
      → List Bytes
      → List Bytes
      → Outcome (ExportedApp k × Option Error)
  app_export opts home is_viper height for_zero_height allowed modules =
      raise_if (bytes_eq (text_of home) []) (message (lit "application home not set")) >>= λ _.
      raise_if (not is_viper) (message (lit "appOpts is not viper.Viper")) >>= λ _.
      app_at opts height >>= λ app.
      (export_app_state_and_validators k for_zero_height allowed modules (apps.store_of app)).0
