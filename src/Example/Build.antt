-- ===== src/Example/Build.antt =====
-- A small model of the libraries that build the app, on which the tests run: the app is the list
-- of its store keys.
use stable_coin.Prelude.{
  ℕ, refl, ap, Bytes, true, List, [], ◌∷◌, ◌++◌, Option, none, some, ◌==◌, if◌then◌else◌,
}
use mathlib.Core.Path.{subst}
use stable_coin.Go.Outcome.{ok, Action}
use stable_coin.App.Runtime.{
  Runtime, IbcName, ibc, transfer, ica, ica_host, ica_controller, tendermint, solomachine,
}
use stable_coin.App.New.Keys.{HasKeys, KeyLaws}

unfoldable pub name_number : IbcName → ℕ
name_number ibc = 0
name_number transfer = 1
name_number ica = 2
name_number ica_host = 3
name_number ica_controller = 4
name_number tendermint = 5
name_number solomachine = 6

abbrev find_key : IbcName → List IbcName → Option IbcName
find_key name [] = none
find_key name (k ∷ ks) = if name_number name == name_number k then some k else find_key name ks

abbrev idle : {A : Type 0} → A → Action (List IbcName) A
idle a s = (ok a, s)

abbrev pub runtime : Runtime
runtime = record {
  App = List IbcName;
  Options = Bytes;
  inject = λ opts. ok [];
  BaseOption = Bytes;
  default_options = λ opts. [];
  optimistic_execution = [];
  build = λ options. idle tt;
  Key = IbcName;
  Subspace = Bytes;
  register_stores = λ names app. (ok tt, names ++ app);
  find_store_key = find_key;
  add_subspace = λ name. idle tt;
  get_subspace = λ name app. ([], true);
  gov_address = λ app. ([], true);
  new_keeper = λ name key s gov. idle tt;
  set_router = λ routes. idle tt;
  set_router_v2 = λ routes. idle tt;
  add_light_client = λ name. idle tt;
  register_modules = λ names. idle tt;
  new_simulation_manager = idle tt;
  register_store_decoders = idle tt;
  Request = Bytes;
  Response = Bytes;
  set_module_version_map = idle tt;
  init_chain = λ req. idle req;
  set_init_chainer = λ chainer. idle tt;
  load = λ latest. idle tt;
  load_height = λ height. idle tt;
}

four_keys :
    (app : List IbcName) → HasKeys runtime (ibc ∷ transfer ∷ ica_host ∷ ica_controller ∷ app)
unfolding name_number
four_keys app = (refl, refl, refl, refl)

pub runtime-KeyLaws : KeyLaws runtime
runtime-KeyLaws = record {
  registered = λ app app' e. subst (HasKeys runtime) (ap (λ r. r.1) e) (four_keys app);
  subspace_keeps = λ name app app' e keys. subst (HasKeys runtime) (ap (λ r. r.1) e) keys;
  keeper_keeps = λ name key s gov app app' e keys. subst (HasKeys runtime) (ap (λ r. r.1) e) keys;
}
