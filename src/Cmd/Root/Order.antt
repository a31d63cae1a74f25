-- ===== src/Cmd/Root/Order.antt =====
-- The loops over maps in NewRootCmd.
use stable_coin.Prelude.{◌≡◌, refl, sym, ap, ◌∙◌, [], ◌∷◌, ◌++◌, true, Bool-cases, inl, inr}
use mathlib.Core.Path.{ap₂}
use stable_coin.Go.Outcome.{Outcome, Action, ok, err, panic, after, ok_inj}
use stable_coin.Go.Action.{fatal}
use stable_coin.Go.Map.{TextMap, entries, SameEntries, HasUniqueKeys, fill, fill-entries}
use stable_coin.Go.Strings.{lit}
use stable_coin.Cmd.Commands.{Cobra, init_root_cmd}
use stable_coin.Cmd.Root.{
  Client, Injection, Managers, ibc_map, register_basic, register_ibc, add_modules, new_root_cmd,
  app_name, persistent_pre_run,
}

-- A way to range over a map: every entry once.
pub record RangeLaws {A : Type 0} (order : TextMap A → TextMap A) : Type 0 where
  pub same : (m : TextMap A) → HasUniqueKeys m → SameEntries m (order m)
  pub once : (m : TextMap A) → HasUniqueKeys m → HasUniqueKeys (order m)

after-first :
    {S A B : Type 0} (r : Outcome A) (s : S) (f g : A → Action S B)
    → ((a : A) → (f a s).0 ≡ (g a s).0)
    → (after (r, s) f).0 ≡ (after (r, s) g).0
after-first (ok a) s f g h = h a
after-first (err e) s f g h = refl
after-first panic s f g h = refl

after-ok-first :
    {S A B : Type 0} (o : Outcome A × S) (f : A → Action S B) (r : Outcome B) {a : A}
    → o.0 ≡ ok a
    → ((s : S) → (f a s).0 ≡ r)
    → (after o f).0 ≡ r
after-ok-first (ok a, s) f r e h = ap (λ x. (f x s).0) (ok_inj e) ∙ h s
after-ok-first (err x, s) f r e h = cc
after-ok-first (panic, s) f r e h = cc

module _ {b : Cobra} {l : Client b} (d : Injection b l) where
  add_modules-fill :
      (m : TextMap d.Module) (s : Managers d)
      → add_modules d m s
        ≡ record { basics = fill d.adaptor m s.basics; autos = fill (λ key a. a) m s.autos }
  unfolding add_modules fill
  add_modules-fill [] s = refl
  add_modules-fill (e ∷ m) s = add_modules-fill m _

  add_modules-order :
      (order order' : TextMap d.Module → TextMap d.Module) (h : RangeLaws order)
      → (h' : RangeLaws order') (m : TextMap d.Module) (s : Managers d) → HasUniqueKeys m
      → (entries (add_modules d (order m) s).basics ≡ entries (add_modules d (order' m) s).basics)
        × (entries (add_modules d (order m) s).autos ≡ entries (add_modules d (order' m) s).autos)
  add_modules-order order order' h h' m s unique =
      let same : SameEntries (order m) (order' m) =
        λ key. sym (h.same m unique key) ∙ h'.same m unique key in
      let left = add_modules-fill (order m) s in
      let right = add_modules-fill (order' m) s in
      (
        ap (λ x. entries x.basics) left
            ∙ fill-entries d.adaptor (order m) (order' m) s.basics (h.once m unique)
                (h'.once m unique) same
            ∙ sym (ap (λ x. entries x.basics) right),
        ap (λ x. entries x.autos) left
            ∙ fill-entries (λ key a. a) (order m) (order' m) s.autos (h.once m unique)
                (h'.once m unique) same
            ∙ sym (ap (λ x. entries x.autos) right),
      )

  register_basic-ok :
      ((m : d.Module) (registry : d.Registry) → (d.register_interfaces m registry).0 ≡ ok tt)
      → (m : TextMap d.Module) (registry : d.Registry) → (register_basic d m registry).0 ≡ ok tt
  register_basic-ok registers [] registry = refl
  register_basic-ok registers (e ∷ m) registry = elim (Bool-cases (d.is_basic e.1)) [
    | inl basic ↦ rw basic (
        after-ok-first (d.register_interfaces e.1 registry) (λ _. register_basic d m) (ok tt)
          (registers e.1 registry) (register_basic-ok registers m))
    | inr not_basic ↦ rw not_basic (register_basic-ok registers m registry)
  ]

  -- NewRootCmd fills its maps of modules in loops over a map, in an order that Go leaves open. The
  -- command that it returns, or the way in which it fails, does not depend on that order: whatever
  -- two ways to range over a map, which visit every entry once, lead to the same root command,
  -- where the names of the IBC modules differ and no registration of interfaces panics.
  pub new_root_cmd-order :
      (order order' : TextMap d.Module → TextMap d.Module)
      → RangeLaws order
      → RangeLaws order'
      → ((m : d.Module) (registry : d.Registry) → (d.register_interfaces m registry).0 ≡ ok tt)
      → ((ctx : l.Context) → HasUniqueKeys (ibc_map d ctx))
      → (registry : d.Registry)
      → (new_root_cmd d order registry).0 ≡ (new_root_cmd d order' registry).0
  unfolding new_root_cmd register_ibc
  new_root_cmd-order order order' h h' registers unique registry =
      after-first (fatal d.injected) registry _ _ (λ ctx.
        let start : Managers d = record { basics = d.basic_manager; autos = d.auto_modules } in
        let root =
          d.root_command (app_name ++ lit "d") (lit "stbchain node") true (persistent_pre_run l)
            ctx in
        let (basics, autos) =
          add_modules-order order order' h h' (ibc_map d ctx) start (unique ctx) in
        let listed : (way : TextMap d.Module → TextMap d.Module) (s : d.Registry)
            → (register_ibc d way ctx s).0 ≡ ok (ibc_map d ctx) =
          λ way s.
            after-ok-first (register_basic d (way (ibc_map d ctx)) s) _ _
              (register_basic-ok registers (way (ibc_map d ctx)) s) (λ s'. refl) in
        after-ok-first (register_ibc d order ctx registry) _ _ (listed order registry) (λ s. refl)
        ∙ ap₂ (λ x y. fatal (d.enhance y (init_root_cmd b (l.tx_config ctx) x root))) basics autos
        ∙ sym (
            after-ok-first (register_ibc d order' ctx registry) _ _ (listed order' registry)
              (λ s. refl)))
