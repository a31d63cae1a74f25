-- ===== src/Cmd/MultiNode/Files.antt =====
-- writeFile, copyFile, isSubDir and generateRandomString.
use stable_coin.Prelude.{ℕ, zero, suc, Bytes, Bool, false, not, ◌&&◌, [], ◌∷◌, ◌==◌}
use stable_coin.Go.Outcome.{Outcome, ok, Done, Action, or_panic}
use stable_coin.Go.Outcome
use stable_coin.Go.Action.{◌>>=◌, ◌>>◌, pure, calling}
use stable_coin.Go.IntMap.{get_elem?}
use stable_coin.Go.Strings.{lit}
use stable_coin.Go.Strings.Itoa.{has_prefix}
use stable_coin.Cmd.Network.{Network}

-- `defer f()`: however the rest ends, f runs after it, and what it returns is dropped.
abbrev after_defer : {S A : Type 0} → Action S Done → Outcome A × S → Outcome A × S
after_defer close (r, s) = (r, (close s).1)

abbrev deferred : {S A : Type 0} → Action S Done → Action S A → Action S A
deferred close rest s = after_defer close (rest s)

-- filepath.IsAbs, of a Unix path.
abbrev is_abs : Bytes → Bool
is_abs [] = false
is_abs (b ∷ path) = b == 47

abbrev charset : Bytes
charset = lit "abcdefghijklmnopqrstuvwxyz0123456789"

module _ (n : Network) where
  -- An error of the first call is wrapped with a text.
  unfoldable pub write_file : Bytes → Bytes → Bytes → Action n.World Done
  write_file file dir contents = do n.mkdir_all dir 493; n.write_file file contents 420

  unfoldable pub copy_file : Bytes → Bytes → Action n.World ℕ
  copy_file src dst_dir = do
    source ← n.open_file src
    deferred (n.close source) (do
      destination ← n.create_file (n.join (dst_dir ∷ n.base src ∷ []))
      deferred (n.close destination)
          (do copied ← n.copy destination source; n.sync destination; pure copied))

  unfoldable pub is_sub_dir : Bytes → Bytes → n.World → Outcome Bool
  is_sub_dir src dst_dir w = Outcome.◌>>=◌ (n.abs src w) λ abs_src.
      Outcome.◌>>=◌ (n.abs dst_dir w) λ abs_dst_dir.
        Outcome.◌>>=◌ (n.rel abs_dst_dir abs_src)
          λ path. ok (not (has_prefix path (lit "..")) && not (is_abs path))

  -- The characters of generateRandomString.
  unfoldable pub random_string : ℕ → Action n.World Bytes
  random_string zero = pure []
  random_string (suc length) = do
    i ← n.random_below 36
    b ← calling (or_panic (get_elem? charset i))
    rest ← random_string length
    pure (b ∷ rest)
