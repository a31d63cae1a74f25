-- ===== src/Keeper/Trace/Token/Steps.antt =====
-- The machine's view of a committed state, and the machine's step for each handler.
use stable_coin.Prelude.{
  ◌≡◌, refl, sym, ap, ◌∙◌, Option, none, some, [], ◌∷◌, Bytes, true, false, bytes_eq, bytes_eq_iff,
  arith,
}
use mathlib.Core.Path.{subst, ap₂}
use mathlib.Core.Option.{some-injective}
use stable_coin.Prelude.Int.{ℤ, pos, ◌+ℤ◌, ◌-ℤ◌, ◌<ℤ◌, ◌≤ℤ◌, ltb_ℤ, int_laws, +ℤ_parts, eq_of_parts}
use stable_coin.Go.Outcome.{Outcome, ok_inj, ok, err, panic}
use stable_coin.Sdk.{Sdk, Coins, amount_of, MathLaws, StoreLaws}
use stable_coin.Types.Params.{Params, ParamsCodec, CodecLaws}
use stable_coin.Types.Messages.{MsgMint, MsgBurn, MsgUpdateParams}
use stable_coin.Keeper.State.{World, Keeper, get_params, get_total_supply}
use stable_coin.Keeper.Server.{MintPlan}
use stable_coin.Keeper.Server.Checks.{MintGranted}
use stable_coin.Keeper.Server.Mint.{MintDone}
use stable_coin.Keeper.Server.Burn.{BurnDone}
use stable_coin.Keeper.Update.{update_params}
use stable_coin.Keeper.Update.Effect.{update_params-ok}
use stable_coin.Keeper.Trace.Token.{
  Token, mint_event, burn_event, govern_event, may_change, share, grow, shrink, token_step,
}

abbrev pub answer : {A : Type 0} → Outcome A → Option A
answer (ok a) = some a
answer (err e) = none
answer panic = none

-- What the machine sees of a state: the stored parameters, the counter, and the bank's supply.
pub record Views (k : Sdk) (keeper : Keeper) (c : ParamsCodec) (w : World k) (t : Token)
    : Type 0 where
  pub params : Params
  pub stored : get_params k c w ≡ ok (params, none)
  pub limit : k.new_int_from_string params.max_supply ≡ some t.limit
  pub terms :
      (t.authority ≡ keeper.authority)
      × (t.issuer ≡ params.issuer)
      × (t.denom ≡ params.denom)
      × (t.paused ≡ params.paused)
  pub counter : get_total_supply k w ≡ ok t.total
  pub supply : (d : Bytes) → k.supply_of d w.bank ≡ t.supply d

may_change-granted :
    (by : Bytes) (a : ℤ) (t : Token)
    → t.paused ≡ false
    → by ≡ t.issuer
    → pos 0 <ℤ a
    → may_change by a t ≡ true
may_change-granted by a t running same positive =
    let e = (bytes_eq_iff by t.issuer).1 same in ground arith

token_step-mint :
    (by : Bytes) (a : ℤ) (t : Token)
    → may_change by a t ≡ true
    → t.total +ℤ a ≤ℤ t.limit
    → token_step (mint_event by (some a)) t ≡ some (grow a t)
unfolding token_step
token_step-mint by a t may fits =
    let below : ltb_ℤ t.limit (t.total +ℤ a) ≡ false = grind int_laws in rw (may, below)

token_step-burn :
    (by : Bytes) (a : ℤ) (t : Token)
    → may_change by a t ≡ true
    → a ≤ℤ t.total
    → token_step (burn_event by (some a)) t ≡ some (shrink a t)
unfolding token_step
token_step-burn by a t may covered =
    let below : ltb_ℤ t.total a ≡ false = grind int_laws in rw (may, below)

add_nothing : (a : ℤ) → a +ℤ pos 0 ≡ a
add_nothing a = eq_of_parts _ _ (omega (arith, +ℤ_parts a (pos 0)))

amount_of-share :
    (coins : Coins) (denom d : Bytes) (a : ℤ)
    → coins ≡ record { denom = denom; amount = a } ∷ []
    → amount_of d coins ≡ share denom a d
amount_of-share coins denom d a h = ap (amount_of d) h ∙ add_nothing (share denom a d)

module _ (k : Sdk) (keeper : Keeper) (c : ParamsCodec) {w : World k} (t : Token)
    (v : Views k keeper c w t) where
  -- A state with the same parameters, seen by a token with the same terms.
  pub same_terms :
      {w' : World k} (t' : Token)
      → get_params k c w' ≡ get_params k c w
      → (t'.authority ≡ t.authority)
        × (t'.issuer ≡ t.issuer)
        × (t'.denom ≡ t.denom)
        × (t'.paused ≡ t.paused)
        × (t'.limit ≡ t.limit)
      → get_total_supply k w' ≡ ok t'.total
      → ((d : Bytes) → k.supply_of d w'.bank ≡ t'.supply d)
      → Views k keeper c w' t'
  same_terms t' same (ea, ei, ed, ep, el) counter supply = record {
    params = v.params;
    stored = same ∙ v.stored;
    limit = v.limit ∙ ap some (sym el);
    terms = let (fa, fi, fd, fp) = v.terms in (ea ∙ fa, ei ∙ fi, ed ∙ fd, ep ∙ fp);
    counter = counter;
    supply = supply;
  }

  one_params : (p : Params) → get_params k c w ≡ ok (p, none) → p ≡ v.params
  one_params p h = ap (λ x. x.0) (ok_inj (sym h ∙ v.stored))

  may_change-stored :
      (p : Params) (by : Bytes) (a : ℤ)
      → get_params k c w ≡ ok (p, none)
      → p.paused ≡ false
      → by ≡ p.issuer
      → pos 0 <ℤ a
      → may_change by a t ≡ true
  may_change-stored p by a h running same positive =
      let e = one_params p h in
      let (_, fi, _, fp) = v.terms in
      may_change-granted by a t (fp ∙ sym (ap (λ q. q.paused) e) ∙ running)
        (same ∙ ap (λ q. q.issuer) e ∙ sym fi) positive

  amount_of-stored :
      (p : Params) (coins : Coins) (a : ℤ) (d : Bytes)
      → get_params k c w ≡ ok (p, none)
      → coins ≡ record { denom = p.denom; amount = a } ∷ []
      → amount_of d coins ≡ share t.denom a d
  amount_of-stored p coins a d h paid =
      let (_, _, fd, _) = v.terms in
      amount_of-share coins p.denom d a paid
      ∙ ap (λ x. share x a d) (ap (λ q. q.denom) (one_params p h) ∙ sym fd)

  granted-total :
      (m : MsgMint) (plan : MintPlan) (g : MintGranted k c m w plan) → plan.current_supply ≡ t.total
  granted-total m plan g = ok_inj (sym g.counter ∙ v.counter)

  -- A mint that the tests of the handler grant is one that the machine accepts.
  pub granted-token_step :
      (m : MsgMint) (plan : MintPlan)
      → MintGranted k c m w plan
      → token_step (mint_event m.authority (k.new_int_from_string m.amount)) t
        ≡ some (grow plan.amount t)
  granted-token_step m plan g =
      let a = plan.amount in
      let p = one_params g.params g.stored in
      let may =
        may_change-stored g.params m.authority a g.stored g.running g.by_issuer g.positive in
      let limit : g.max ≡ t.limit =
        some-injective _ _
          (sym g.limit ∙ ap (λ q. k.new_int_from_string q.max_supply) p ∙ v.limit) in
      let fits : t.total +ℤ a ≤ℤ t.limit =
        subst (λ x. x +ℤ a ≤ℤ t.limit) (granted-total m plan g)
          (subst (λ x. plan.current_supply +ℤ a ≤ℤ x) limit g.in_limit) in
      ap (λ x. token_step (mint_event m.authority x) t) g.parsed
      ∙ token_step-mint m.authority a t may fits

  pub mint-Views :
      {w' : World k} (m : MsgMint)
      → MintDone k c m w w'
      → (t' : Token) × (token_step (mint_event m.authority (k.new_int_from_string m.amount)) t
          ≡ some t')
        × Views k keeper c w' t'
  mint-Views m done =
      let g = done.granted in
      let a = done.plan.amount in
      (
        grow a t,
        granted-token_step m done.plan g,
        same_terms (grow a t) done.same_params (refl, refl, refl, refl, refl)
            (done.counted ∙ ap (λ x. ok (x +ℤ a)) (granted-total m done.plan g))
            (λ d.
              done.minted d
              ∙ ap₂ (λ x y. x +ℤ y) (v.supply d)
                  (amount_of-stored g.params done.plan.coins a d g.stored g.paid)),
      )

  pub burn-Views :
      {w' : World k} (m : MsgBurn)
      → BurnDone k c m w w'
      → (t' : Token) × (token_step (burn_event m.authority (k.new_int_from_string m.amount)) t
          ≡ some t')
        × Views k keeper c w' t'
  burn-Views m done =
      let g = done.granted in
      let a = done.plan.amount in
      let total : done.current ≡ t.total = ok_inj (sym done.counter ∙ v.counter) in
      let may =
        may_change-stored g.params m.authority a g.stored g.running g.by_issuer g.positive in
      let covered : a ≤ℤ t.total = subst (λ x. a ≤ℤ x) total done.covered in
      (
        shrink a t,
        ap (λ x. token_step (burn_event m.authority x) t) g.parsed
            ∙ token_step-burn m.authority a t may covered,
        same_terms (shrink a t) done.same_params (refl, refl, refl, refl, refl)
            (done.counted ∙ ap (λ x. ok (x -ℤ a)) total)
            (λ d.
              done.burned d
              ∙ ap₂ (λ x y. x -ℤ y) (v.supply d)
                  (amount_of-stored g.params done.plan.coins a d g.stored g.paid)),
      )

module _ (k : Sdk) (keeper : Keeper) (math : MathLaws k) (stores : StoreLaws k) (c : ParamsCodec)
    (codec : CodecLaws c) {w w' : World k} (t : Token) (v : Views k keeper c w t) where
  pub update-Views :
      (r : MsgUpdateParams)
      → update_params k keeper c r w ≡ (ok tt, w')
      → (t' : Token) × (token_step
            (govern_event
              (answer (k.string_to_bytes r.authority))
              r.params.issuer
              r.params.denom
              r.params.paused
              (k.new_int_from_string r.params.max_supply))
            t
          ≡ some t')
        × Views k keeper c w' t'
  unfolding token_step
  update-Views r h =
      let (sent, valid, read, counter, bank) =
        update_params-ok k keeper math r c stores codec w w' h in
      let (fa, _, _, _) = v.terms in
      let t' : Token = record t {
        issuer = r.params.issuer;
        denom = r.params.denom;
        paused = r.params.paused;
        limit = valid.max;
      } in
      let same : bytes_eq keeper.authority t.authority ≡ true =
        (bytes_eq_iff keeper.authority t.authority).1 (sym fa) in
      let positive : ltb_ℤ (pos 0) valid.max ≡ true = ground (arith, valid.max_positive) in
      (
        t',
        rw (sent, valid.max_parsed, same, positive),
        record {
          params = r.params;
          stored = read;
          limit = valid.max_parsed;
          terms = (fa, refl, refl, refl);
          counter = counter ∙ v.counter;
          supply = λ d. ap (k.supply_of d) bank ∙ v.supply d;
        },
      )
