-- ===== src/App/New/Keys.antt =====
-- The keys that the keepers of the IBC modules are made with.
use stable_coin.Prelude.{
  [], ◌∷◌, ◌≡◌, refl, ap, ◌∙◌, Bytes, Bool, true, false, Option, none, some, List, ◌++◌,
}
use stable_coin.Go.Outcome.{Outcome, ok, err, panic, Done, Action, after, after-eq-ok}
use stable_coin.Go.Outcome
use stable_coin.Go.Action.{◌>>◌, fatal, fatal_after, or_die}
use stable_coin.App.Runtime.{
  Runtime, IbcName, ibc, transfer, ica, ica_host, ica_controller, tendermint, solomachine,
}
use stable_coin.App.New.{
  create_keeper, create_keepers, register_params, register_ibc_modules, get_key, get_subspace,
  add_routes, init_chainer, finish_app, finished, new,
}

abbrev is_some : {A : Type 0} → Option A → Bool
is_some none = false
is_some (some a) = true

abbrev pub HasKeys : (r : Runtime) → r.App → Type 0
HasKeys r app =
    (is_some (r.find_store_key ibc app) ≡ true)
    × (is_some (r.find_store_key transfer app) ≡ true)
    × (is_some (r.find_store_key ica_host app) ≡ true)
    × (is_some (r.find_store_key ica_controller app) ≡ true)

-- RegisterStores makes its keys known, and the calls after it forget none.
pub record KeyLaws (r : Runtime) : Type 0 where
  pub registered :
      (app app' : r.App)
      → r.register_stores (ibc ∷ transfer ∷ ica_host ∷ ica_controller ∷ []) app ≡ (ok tt, app')
      → HasKeys r app'
  pub subspace_keeps :
      (name : IbcName) (app app' : r.App)
      → r.add_subspace name app ≡ (ok tt, app')
      → HasKeys r app
      → HasKeys r app'
  pub keeper_keeps :
      (name : IbcName) (key : Option r.Key) (s : r.Subspace) (gov : Bytes) (app app' : r.App)
      → r.new_keeper name key s gov app ≡ (ok tt, app')
      → HasKeys r app
      → HasKeys r app'

-- The constructors of the keepers, but a nil key is a panic.
abbrev pub strict_keeper :
    (r : Runtime) → IbcName → Option r.Key → r.Subspace → Bytes → Action r.App Done
strict_keeper r name none s gov app = (panic, app)
strict_keeper r name (some key) s gov app = r.new_keeper name (some key) s gov app

abbrev pub strict : Runtime → Runtime
strict r = record r { new_keeper = strict_keeper r }

after-congr :
    {S A B : Type 0} (x : Outcome A × S) (f g : A → Action S B)
    → ((a : A) (s : S) → x ≡ (ok a, s) → f a s ≡ g a s)
    → after x f ≡ after x g
after-congr (ok a, s) f g h = h a s refl
after-congr (err e, s) f g h = refl
after-congr (panic, s) f g h = refl

module _ (r : Runtime) (laws : KeyLaws r) where
  strict_keeper-eq :
      (name : IbcName) (key : Option r.Key) (s : r.Subspace) (gov : Bytes) (app : r.App)
      → is_some key ≡ true
      → strict_keeper r name key s gov app ≡ r.new_keeper name key s gov app
  strict_keeper-eq name none s gov app h = cc
  strict_keeper-eq name (some key) s gov app h = refl

  keeper_step :
      (name : IbcName) (key : Option r.Key) (s : r.Subspace) (gov : Bytes) (app : r.App)
      → (f g : Done → Action r.App Done) → HasKeys r app
      → is_some key ≡ true
      → ((app' : r.App) → HasKeys r app' → f tt app' ≡ g tt app')
      → after (strict_keeper r name key s gov app) f ≡ after (r.new_keeper name key s gov app) g
  keeper_step name key s gov app f g keys there next =
      ap (λ x. after x f) (strict_keeper-eq name key s gov app there)
      ∙ after-congr (r.new_keeper name key s gov app) f g
          (λ _ app' made. next app' (laws.keeper_keeps name key s gov app app' made keys))

  create_keepers-strict :
      (gov : Bytes) (app : r.App)
      → HasKeys r app
      → create_keepers (strict r) gov app ≡ create_keepers r gov app
  unfolding create_keepers create_keeper get_key get_subspace
  create_keepers-strict gov app keys = keeper_step ibc _ _ gov app _ _ keys keys.0 λ app₁ keys₁.
      keeper_step transfer _ _ gov app₁ _ _ keys₁ keys₁.1 λ app₂ keys₂.
        keeper_step ica_host _ _ gov app₂ _ _ keys₂ keys₂.2
          λ app₃ keys₃. strict_keeper-eq ica_controller _ _ gov app₃ keys₃.3

  register_params-HasKeys :
      (app app' : r.App) → register_params r app ≡ (ok tt, app') → HasKeys r app → HasKeys r app'
  unfolding register_params
  register_params-HasKeys app app' e keys =
      let (_, app₁, e₁, r₁) = after-eq-ok (r.add_subspace ibc app) _ e in
      let (_, app₂, e₂, r₂) = after-eq-ok (r.add_subspace transfer app₁) _ r₁ in
      let (_, app₃, e₃, e₄) = after-eq-ok (r.add_subspace ica_controller app₂) _ r₂ in
      laws.subspace_keeps ica_host app₃ app' e₄ (
        laws.subspace_keeps ica_controller app₂ app₃ e₃
          (laws.subspace_keeps transfer app₁ app₂ e₂ (laws.subspace_keeps ibc app app₁ e₁ keys)))

  register_ibc_modules-strict :
      (app : r.App) → register_ibc_modules (strict r) app ≡ register_ibc_modules r app
  unfolding register_ibc_modules register_params add_routes
  register_ibc_modules-strict app =
      after-congr (r.register_stores (ibc ∷ transfer ∷ ica_host ∷ ica_controller ∷ []) app) _ _
        λ _ app₁ stored. after-congr (register_params r app₁) _ _ λ _ app₂ params.
          ap
            (λ x. after x (λ _.
              add_routes r
              >> r.register_modules (ibc ∷ transfer ∷ ica ∷ tendermint ∷ solomachine ∷ [])))
            (create_keepers-strict (r.gov_address app₂).0 app₂
              (register_params-HasKeys app₁ app₂ params (laws.registered app app₁ stored)))

  bind-congr :
      {A B : Type 0} (x : Outcome A) (f g : A → Outcome B)
      → ((a : A) → f a ≡ g a)
      → Outcome.◌>>=◌ x f ≡ Outcome.◌>>=◌ x g
  bind-congr (ok a) f g h = h a
  bind-congr (err e) f g h = refl
  bind-congr panic f g h = refl

  -- No keeper of the IBC modules is made with a nil key: New does the same on libraries whose
  -- constructors panic on a nil key. The libraries keep their laws.
  pub new-strict :
      (load_latest : Bool) (opts : r.Options) (base_options : List r.BaseOption)
      → new (strict r) load_latest opts base_options ≡ new r load_latest opts base_options
  unfolding new finish_app init_chainer
  new-strict load_latest opts base_options = bind-congr (fatal (r.inject opts)) _ _ λ app.
      ap (finished r) (
        after-congr (r.build (base_options ++ (r.optimistic_execution ∷ [])) app) _ _
          λ _ app₁ built.
            ap
              (λ x. after (fatal_after x) (λ _.
                r.new_simulation_manager
                >> (r.register_store_decoders
                    >> (r.set_init_chainer (init_chainer r) >> or_die (r.load load_latest)))))
              (register_ibc_modules-strict app₁))
