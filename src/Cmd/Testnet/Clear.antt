-- ===== src/Cmd/Testnet/Clear.antt =====
-- Which keys the removal of the validators leaves.
use stable_coin.Prelude.{◌≡◌, Bytes, Bool, true, false, ◌||◌, ◌⊎◌}
use stable_coin.Go.Outcome.{Outcome, ok}
use stable_coin.Cmd.InPlace.{InPlace, Cursor, ended, standing}

-- The loop that starts with the iterator as it is in `s` comes to `key`, although every key that
-- it stands at is deleted before it goes on.
abbrev pub ComesTo : (n : InPlace) → Bytes → Cursor n.Store → n.Store → Type 0
ComesTo n key ended s = ⊥
ComesTo n key (standing k next) s =
    (key ≡ k) ⊎ ((s' : n.Store) → n.delete k s ≡ (ok tt, s') → ComesTo n key (next s') s')

-- A new iterator comes to the keys of the store that it covers.
abbrev Lists :
    (n : InPlace)
    → (Bytes → n.Store → Bool)
    → (Bytes → Bool)
    → (n.Store → Outcome (Cursor n.Store))
    → Type 0
Lists n has covered iterator =
    (key : Bytes) (s : n.Store) (cursor : Cursor n.Store)
    → iterator s ≡ ok cursor
    → covered key ≡ true
    → has key s ≡ true
    → ComesTo n key cursor s

-- The store under the iterators: Delete takes a key out and puts none in, and an iterator is not
-- led astray by the deletion of the key that it stands at.
pub record ClearLaws (n : InPlace) : Type 0 where
  pub has : Bytes → n.Store → Bool
  pub deleted : (key : Bytes) (s s' : n.Store) → n.delete key s ≡ (ok tt, s') → has key s' ≡ false
  pub still_gone :
      (key other : Bytes) (s s' : n.Store)
      → n.delete key s ≡ (ok tt, s')
      → has other s ≡ false
      → has other s' ≡ false
  pub is_power : Bytes → Bool
  pub is_last_validator : Bytes → Bool
  pub in_range : Bytes → Bytes → Bytes → Bool
  pub power_lists : Lists n has is_power n.power_keys
  pub last_lists : Lists n has is_last_validator n.last_validator_keys
  pub range_lists : (start end : Bytes) → Lists n has (in_range start end) (n.range_keys start end)

module _ (n : InPlace) (laws : ClearLaws n) (key : Bytes) where
  abbrev covered : Bool
  covered =
      laws.is_power key
      || (laws.is_last_validator key
          || (laws.in_range n.validators_key (n.prefix_end n.validators_key) key
              || laws.in_range n.validator_queue_key (n.prefix_end n.validator_queue_key) key))
