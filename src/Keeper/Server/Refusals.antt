-- ===== src/Keeper/Server/Refusals.antt =====
-- The ways in which Mint and Burn refuse, and what they leave alone then.
use stable_coin.Prelude.{
  Bytes, ◌≡◌, refl, Bool, ◌⊎◌, Option, none, some, true, false, if◌then◌else◌, bytes_eq, arith, inl,
  inr,
}
use mathlib.Core.Option.{some-injective}
use stable_coin.Go.Outcome.{Outcome, Error, ok, err, panic, paused, not_issuer, after}
use stable_coin.Sdk.{Sdk}
use stable_coin.Types.Params.{Params, ParamsCodec}
use stable_coin.Types.Messages.{MsgMint, MsgBurn}
use stable_coin.Keeper.State.{World, get_params, set_total_supply}
use stable_coin.Keeper.Server.{
  MintPlan, BurnPlan, mint_checks, burn_checks, mint_effects, burn_effects, mint, burn,
}

-- The first thing that is held against a sender: the pause before the name.
abbrev pub refusal : Params → Bytes → Option Error
refusal p by =
    if p.paused then some paused else if bytes_eq by p.issuer then none else some not_issuer

refused_by :
    (paused_now same : Bool) {e : Error}
    → (if paused_now then some paused else if same then none else some not_issuer) ≡ some e
    → ((paused_now ≡ true) × (paused ≡ e))
      ⊎ ((paused_now ≡ false) × (same ≡ false) × (not_issuer ≡ e))
refused_by true same h = inl (refl, some-injective _ _ h)
refused_by false true h = cc
refused_by false false h = inr (refl, refl, some-injective _ _ h)

module _ (k : Sdk) (c : ParamsCodec) (w : World k) (p : Params)
    (stored : get_params k c w ≡ ok (p, none)) where
  mint_refused :
      (m : MsgMint) (e : Error) → refusal p m.authority ≡ some e → mint k c m w ≡ (err e, w)
  unfolding mint mint_checks
  mint_refused m e h = elim (refused_by p.paused (bytes_eq m.authority p.issuer) h) [
    | inl (halted, why) ↦ rw (stored, halted, why)
    | inr (running, stranger, why) ↦ rw (stored, running, stranger, why)
  ]

  burn_refused :
      (m : MsgBurn) (e : Error) → refusal p m.authority ≡ some e → burn k c m w ≡ (err e, w)
  unfolding burn burn_checks
  burn_refused m e h = elim (refused_by p.paused (bytes_eq m.authority p.issuer) h) [
    | inl (halted, why) ↦ rw (stored, halted, why)
    | inr (running, stranger, why) ↦ rw (stored, running, stranger, why)
  ]

  -- While the stored parameters say paused every Mint and every Burn fails with `paused`, also
  -- the issuer's; otherwise those of a sender other than the stored issuer fail with
  -- `not_issuer`. Either way nothing changes.
  pub refused_lem :
      (m : MsgMint) (b : MsgBurn) (e f : Error)
      → refusal p m.authority ≡ some e
      → refusal p b.authority ≡ some f
      → (mint k c m w ≡ (err e, w)) × (burn k c b w ≡ (err f, w))
  refused_lem m b e f hm hb = (mint_refused m e hm, burn_refused b f hb)

module _ (k : Sdk) where
  mint_effects-keeps_store :
      (plan : MintPlan) (w w' : World k) (e : Error)
      → mint_effects k plan w ≡ (err e, w')
      → w'.store ≡ w.store
  unfolding mint_effects set_total_supply
  mint_effects-keeps_store plan w w' e h = ground arith

  burn_effects-keeps_store :
      (plan : BurnPlan) (w w' : World k) (e : Error)
      → burn_effects k plan w ≡ (err e, w')
      → w'.store ≡ w.store
  unfolding burn_effects set_total_supply
  burn_effects-keeps_store plan w w' e h = ground arith

  failed_mint_keeps_store :
      (c : ParamsCodec) (m : MsgMint) (w w' : World k) (e : Error)
      → mint k c m w ≡ (err e, w')
      → w'.store ≡ w.store
  unfolding mint
  failed_mint_keeps_store c m w w' e h = go (mint_checks k c m w) h
    where
      go : (r : Outcome MintPlan) → after (r, w) (mint_effects k) ≡ (err e, w') → w'.store ≡ w.store
      go (ok plan) h = mint_effects-keeps_store plan w w' e h
      go (err x) h = ground arith
      go panic h = cc

  failed_burn_keeps_store :
      (c : ParamsCodec) (m : MsgBurn) (w w' : World k) (e : Error)
      → burn k c m w ≡ (err e, w')
      → w'.store ≡ w.store
  unfolding burn
  failed_burn_keeps_store c m w w' e h = go (burn_checks k c m w) h
    where
      go : (r : Outcome BurnPlan) → after (r, w) (burn_effects k) ≡ (err e, w') → w'.store ≡ w.store
      go (ok plan) h = burn_effects-keeps_store plan w w' e h
      go (err x) h = ground arith
      go panic h = cc

  -- A Mint or a Burn that ends with an error has left the module's store as it was, although the
  -- error of a Burn may come after the coins were burned.
  pub failed_keeps_store :
      (c : ParamsCodec) (m : MsgMint) (b : MsgBurn) (w w' v v' : World k) (e f : Error)
      → mint k c m w ≡ (err e, w')
      → burn k c b v ≡ (err f, v')
      → (w'.store ≡ w.store) × (v'.store ≡ v.store)
  failed_keeps_store c m b w w' v v' e f minted burned =
      (failed_mint_keeps_store c m w w' e minted, failed_burn_keeps_store c b v v' f burned)
