-- ===== src/Keeper/State/Supply.antt =====
-- The counter of the total supply and the parameters after a write.
use stable_coin.Prelude.{◌≡◌, refl, Bytes, none, some, arith}
use stable_coin.Prelude.Int.{ℤ}
use stable_coin.Go.Outcome.{Outcome, ok, err, panic, Done, Action}
use stable_coin.Sdk.{Sdk, MathLaws, StoreLaws, SetLaws, IsInt}
use stable_coin.Types.Params.{Params, ParamsCodec, CodecLaws, params_key, total_supply_key}
use stable_coin.Keeper.State.{
  World, on_store, on_bank, get_total_supply, set_total_supply, get_params, set_params,
}

module _ (k : Sdk) where
  pub on_bank-eq-ok :
      {A : Type 0} (f : Action k.Bank A) (w w' : World k) {a : A}
      → on_bank k f w ≡ (ok a, w')
      → (f w.bank ≡ (ok a, w'.bank)) × (w'.store ≡ w.store)
  on_bank-eq-ok f w w' h = ground arith

  pub on_store-eq-ok :
      {A : Type 0} (f : Action k.Store A) (w w' : World k) {a : A}
      → on_store k f w ≡ (ok a, w')
      → (f w.store ≡ (ok a, w'.store)) × (w'.bank ≡ w.bank)
  on_store-eq-ok f w w' h = ground arith

  -- Where the store reports no error, a call that returns has written.
  pub set_total_supply-eq-ok :
      SetLaws k
      → (a : ℤ) (w w' : World k) → set_total_supply k a w ≡ (ok tt, w')
      → (k.kv_set total_supply_key (k.int_string a) w.store ≡ (ok tt, w'.store))
        × (w'.bank ≡ w.bank)
  unfolding set_total_supply
  set_total_supply-eq-ok sets a w w' h =
      go (k.kv_set total_supply_key (k.int_string a) w.store) refl
    where
      go :
          (r : Outcome Done × k.Store)
          → k.kv_set total_supply_key (k.int_string a) w.store ≡ r
          → (k.kv_set total_supply_key (k.int_string a) w.store ≡ (ok tt, w'.store))
            × (w'.bank ≡ w.bank)
      go (ok u, s) e = ground arith
      go (err x, s) e = absurd (sets.set-ne-err _ _ _ s x e)
      go (panic, s) e = ground arith

  pub get_total_supply-kv_get :
      (w : World k) (bz : Bytes) (a : ℤ)
      → k.kv_get total_supply_key w.store ≡ ok (some bz)
      → k.new_int_from_string bz ≡ some a
      → get_total_supply k w ≡ ok a
  unfolding get_total_supply
  get_total_supply-kv_get w bz a e p = ground arith

module _ (k : Sdk) (math : MathLaws k) (stores : StoreLaws k) (sets : SetLaws k) where
  -- The counter that was set is the counter that is read.
  pub get_total_supply-set :
      (a : ℤ) (w w' : World k)
      → IsInt a
      → set_total_supply k a w ≡ (ok tt, w')
      → get_total_supply k w' ≡ ok a
  get_total_supply-set a w w' fits h =
      get_total_supply-kv_get k w' (k.int_string a) a
        (stores.get-set _ _ _ _ (set_total_supply-eq-ok k sets a w w' h).0)
        (math.parse_string a fits)

  -- A write of the counter leaves the parameters alone.
  pub get_params-set_total_supply :
      (c : ParamsCodec) (a : ℤ) (w w' : World k)
      → set_total_supply k a w ≡ (ok tt, w')
      → get_params k c w' ≡ get_params k c w
  unfolding get_params
  get_params-set_total_supply c a w w' h = rw (
    stores.item_get-set_ne Params c.decode total_supply_key (k.int_string a) params_key w.store
        w'.store (set_total_supply-eq-ok k sets a w w' h).0 refl,
    get_params,
  )

module _ (k : Sdk) (stores : StoreLaws k) (c : ParamsCodec) where
  -- The parameters that were set are the parameters that are read.
  pub get_params-set_params :
      CodecLaws c
      → (p : Params) (w w' : World k) → set_params k c p w ≡ (ok tt, w')
      → get_params k c w' ≡ ok (p, none)
  unfolding get_params set_params
  get_params-set_params codec p w w' h =
      let read =
        stores.item_get-item_set Params c.encode c.decode params_key p w.store w'.store
          (codec.decode-encode p)
          (on_store-eq-ok k (k.item_set Params c.encode params_key p) w w' h).0 in
      ground (arith, read)

  -- A write of the parameters leaves the counter and the bank alone.
  pub get_total_supply-set_params :
      (p : Params) (w w' : World k)
      → set_params k c p w ≡ (ok tt, w')
      → (get_total_supply k w' ≡ get_total_supply k w) × (w'.bank ≡ w.bank)
  unfolding get_total_supply set_params
  get_total_supply-set_params p w w' h =
      let (e, b) = on_store-eq-ok k (k.item_set Params c.encode params_key p) w w' h in
      (
        rw (
          stores.get-item_set_ne Params c.encode params_key p total_supply_key w.store w'.store e
              refl,
          get_total_supply,
        ),
        b,
      )

module _ (k : Sdk) where
  pub get_params-store :
      (c : ParamsCodec) (w w' : World k) → w.store ≡ w'.store → get_params k c w ≡ get_params k c w'
  unfolding get_params
  get_params-store c w w' e = rw (e, get_params)

  pub get_total_supply-store :
      (w w' : World k) → w.store ≡ w'.store → get_total_supply k w ≡ get_total_supply k w'
  unfolding get_total_supply
  get_total_supply-store w w' e = rw (e, get_total_supply)
