-- ===== src/Keeper/Trace/Token.antt =====
-- The token as an abstract machine, and the committed states of the chain as its runs. The
-- machine knows nothing of stores, encodings or addresses.
pub mod Steps
pub mod Runs
pub mod Net
pub mod Accepts
use mathlib.Core.Option.{some-injective}
use stable_coin.Prelude.{
  ◌≡◌, refl, true, false, Option, none, some, List, [], ◌∷◌, Bytes, bytes_eq, Bool, if◌then◌else◌,
  ◌&&◌, not,
}
use stable_coin.Prelude.Int.{ℤ, pos, ◌+ℤ◌, ◌-ℤ◌, ltb_ℤ}

pub record Token : Type 0 where
  pub authority : Bytes
  pub issuer : Bytes
  pub denom : Bytes
  pub paused : Bool
  pub limit : ℤ
  pub total : ℤ
  pub supply : Bytes → ℤ

-- What can happen to the token: a mint or a burn that someone asks for, new terms that someone
-- sets, and coins that the rest of the chain makes or destroys. An amount is missing where it is
-- not an integer, and a sender where there is no such address.
pub data Event : Type 0 where
  mint_event : Bytes → Option ℤ → Event
  burn_event : Bytes → Option ℤ → Event
  govern_event : Option Bytes → Bytes → Bytes → Bool → Option ℤ → Event
  outside_event : (Bytes → ℤ) → Event

-- Who may mint or burn, and when.
abbrev pub may_change : Bytes → ℤ → Token → Bool
may_change by a t = not t.paused && bytes_eq by t.issuer && ltb_ℤ (pos 0) a

abbrev pub share : Bytes → ℤ → Bytes → ℤ
share denom a d = if bytes_eq denom d then a else pos 0

abbrev pub grow : ℤ → Token → Token
grow a t = record t { total = t.total +ℤ a; supply = λ d. t.supply d +ℤ share t.denom a d }

abbrev pub shrink : ℤ → Token → Token
shrink a t = record t { total = t.total -ℤ a; supply = λ d. t.supply d -ℤ share t.denom a d }

unfoldable pub token_step : Event → Token → Option Token
token_step (mint_event by none) t = none
token_step (mint_event by (some a)) t =
    if may_change by a t && not (ltb_ℤ t.limit (t.total +ℤ a)) then some (grow a t) else none
token_step (burn_event by none) t = none
token_step (burn_event by (some a)) t =
    if may_change by a t && not (ltb_ℤ t.total a) then some (shrink a t) else none
token_step (govern_event none issuer denom paused max) t = none
token_step (govern_event (some by) issuer denom paused none) t = none
token_step (govern_event (some by) issuer denom paused (some max)) t =
    if bytes_eq by t.authority && ltb_ℤ (pos 0) max
    then some (record t { issuer = issuer; denom = denom; paused = paused; limit = max })
    else none
token_step (outside_event supply) t = some (record t { supply = supply })

abbrev pub and_step : Event → Option Token → Option Token
and_step e none = none
and_step e (some t) = token_step e t

-- A history, the latest event first.
unfoldable pub token_run : List Event → Token → Option Token
token_run [] t = some t
token_run (e ∷ earlier) t = and_step e (token_run earlier t)

-- What an event adds to the total.
abbrev pub or_zero : Option ℤ → ℤ
or_zero none = pos 0
or_zero (some a) = a

unfoldable pub net : List Event → ℤ
net [] = pos 0
net (mint_event by a ∷ earlier) = net earlier +ℤ or_zero a
net (burn_event by a ∷ earlier) = net earlier -ℤ or_zero a
net (govern_event by issuer denom paused max ∷ earlier) = net earlier
net (outside_event supply ∷ earlier) = net earlier

-- A test that was passed, with what stood behind it.
pub guarded-eq-some :
    {A : Type 0} (t : Bool) (x : A) {y : A}
    → (if t then some x else none) ≡ some y
    → (t ≡ true) × (x ≡ y)
guarded-eq-some true x h = (refl, some-injective _ _ h)
guarded-eq-some false x h = cc
