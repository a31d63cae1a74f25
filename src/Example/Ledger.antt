-- ===== src/Example/Ledger.antt =====
-- A bank that keeps every change of a balance as an entry.
use mathlib.Core.List.{List}
use stable_coin.Prelude.{
  ◌≡◌, Bytes, [], ◌∷◌, Bool, true, ◌&&◌, not, bytes_eq, if◌then◌else◌, arith, Bool-cases, inl, inr,
}
use stable_coin.Prelude.Int.{int_laws, ℤ, pos, ◌+ℤ◌, ◌-ℤ◌, ltb_ℤ}
use stable_coin.Go.Outcome.{ok, err, Done, Action, external}
use stable_coin.Sdk.{Coins, amount_of}

pub record Entry : Type 0 where
  pub owner : Bytes
  pub denom : Bytes
  pub change : ℤ

abbrev pub Ledger : Type 0
Ledger = List Entry

abbrev pub supply : Bytes → Ledger → ℤ
supply d [] = pos 0
supply d (e ∷ es) = (if bytes_eq e.denom d then e.change else pos 0) +ℤ supply d es

abbrev balance : Bytes → Bytes → Ledger → ℤ
balance who d [] = pos 0
balance who d (e ∷ es) =
    (if bytes_eq e.denom d && bytes_eq e.owner who then e.change else pos 0) +ℤ balance who d es

abbrev credit : Bytes → Coins → Ledger → Ledger
credit who [] es = es
credit who (c ∷ cs) es =
    record { owner = who; denom = c.denom; change = c.amount } ∷ credit who cs es

abbrev debit : Bytes → Coins → Ledger → Ledger
debit who [] es = es
debit who (c ∷ cs) es =
    record { owner = who; denom = c.denom; change = pos 0 -ℤ c.amount } ∷ debit who cs es

-- One balance after the other, as the coins of a list have different denoms.
abbrev covers : Bytes → Coins → Ledger → Bool
covers who [] es = true
covers who (c ∷ cs) es = not (ltb_ℤ (balance who c.denom es) c.amount) && covers who cs es

abbrev pub mint : Bytes → Coins → Action Ledger Done
mint m cs es = (ok tt, credit m cs es)

abbrev pub burn : Bytes → Coins → Action Ledger Done
burn m cs es = if covers m cs es then (ok tt, debit m cs es) else (err (external 5), es)

abbrev pub send : Bytes → Bytes → Coins → Action Ledger Done
send from to cs es =
    if covers from cs es then (ok tt, credit to cs (debit from cs es)) else (err (external 5), es)

supply-credit :
    (d who : Bytes) (cs : Coins) (es : Ledger)
    → supply d (credit who cs es) ≡ supply d es +ℤ amount_of d cs
supply-credit d who [] es = grind int_laws
supply-credit d who (c ∷ cs) es = elim (Bool-cases (bytes_eq c.denom d)) [
  | inl same ↦ rw same (grind (int_laws, supply-credit d who cs es))
  | inr other ↦ rw other (grind (int_laws, supply-credit d who cs es))
]

supply-debit :
    (d who : Bytes) (cs : Coins) (es : Ledger)
    → supply d (debit who cs es) ≡ supply d es -ℤ amount_of d cs
supply-debit d who [] es = grind int_laws
supply-debit d who (c ∷ cs) es = elim (Bool-cases (bytes_eq c.denom d)) [
  | inl same ↦ rw same (grind (int_laws, supply-debit d who cs es))
  | inr other ↦ rw other (grind (int_laws, supply-debit d who cs es))
]

pub supply-mint :
    (m : Bytes) (cs : Coins) (b b' : Ledger) (d : Bytes)
    → mint m cs b ≡ (ok tt, b')
    → supply d b' ≡ supply d b +ℤ amount_of d cs
supply-mint m cs b b' d h = let eq : b' ≡ credit m cs b = cc in rw eq (supply-credit d m cs b)

pub supply-burn :
    (m : Bytes) (cs : Coins) (b b' : Ledger) (d : Bytes)
    → burn m cs b ≡ (ok tt, b')
    → supply d b' ≡ supply d b -ℤ amount_of d cs
supply-burn m cs b b' d h =
    let eq : b' ≡ debit m cs b = ground arith in rw eq (supply-debit d m cs b)

pub supply-send :
    (from to : Bytes) (cs : Coins) (b b' : Ledger) (d : Bytes)
    → send from to cs b ≡ (ok tt, b')
    → supply d b' ≡ supply d b
supply-send from to cs b b' d h =
    let eq : b' ≡ credit to cs (debit from cs b) = ground arith in
    let out = supply-debit d from cs b in
    let back = supply-credit d to cs (debit from cs b) in rw (eq, back, out) (grind int_laws)
