-- ===== src/Cmd/MultiNode/Peers.antt =====
-- What the loop over the nodes collects.
use mathlib.Core.List.{append_assoc}
use mathlib.Core.Path.{subst}
use stable_coin.Prelude.{
  ℕ, suc, ◌+◌, ◌*◌, ◌≡◌, refl, sym, ap, ◌∙◌, Bytes, false, List, [], ◌∷◌, ◌++◌, length,
  length-append, bytes_eq, arith,
}
use stable_coin.Prelude.Int.{pos_part, pos, ◌-ℤ◌}
use stable_coin.Go.Outcome.{Outcome, ok, err, panic, Done, after-eq-ok, ok_inj}
use stable_coin.Go.Action.{for_count, for_count-inv, after-keeps}
use stable_coin.Go.Strings.{lit}
use stable_coin.Go.Strings.Itoa.{itoa}
use stable_coin.Sdk.{Sdk}
use stable_coin.Cmd.Network.{Network, NodeConfig}
use stable_coin.Cmd.MultiNode.Flags.{InitArgs}
use stable_coin.Cmd.MultiNode.Node.{
  Progress, peer_address, add_peer, on_world, configured, with_node, with_account, or_clean,
  node_dir, config_name, make_key, genesis_coins, make_gentx, open_node, fill_node, write_app_toml,
  add_node,
}
use stable_coin.Cmd.MultiNode.Run.{start, world_of, add_nodes}

-- `id@ip:port`: all nodes have one address, and ports that go down by three.
abbrev pub peer_text : InitArgs → ℕ → Bytes → Bytes
peer_text args i id =
    id ++ lit "@" ++ args.starting_ip_address ++ lit ":" ++ itoa (pos 26656 -ℤ pos (3 * i))

-- The texts of the nodes from number i on, by their ids.
abbrev pub peer_addresses : InitArgs → ℕ → List Bytes → List Bytes
peer_addresses args i [] = []
peer_addresses args i (id ∷ ids) = peer_text args i id ∷ peer_addresses args (i + 1) ids

-- strings.Join by a comma.
abbrev pub joined : List Bytes → Bytes
joined [] = []
joined (x ∷ []) = x
joined (x ∷ y ∷ ys) = x ++ lit "," ++ joined (y ∷ ys)

joined-append :
    (x : Bytes) (xs : List Bytes) (y : Bytes)
    → joined ((x ∷ xs) ++ (y ∷ [])) ≡ joined (x ∷ xs) ++ lit "," ++ y
joined-append x [] y = refl
joined-append x (x' ∷ xs) y =
    let front = x ++ lit "," in
    let after = joined (x' ∷ xs) in
    rw (joined-append x' xs y) (
      sym (
        ap (λ z. z ++ y) (append_assoc front after (lit ","))
        ∙ append_assoc front (after ++ lit ",") y))

nonempty-append : (s t : Bytes) → bytes_eq s [] ≡ false → bytes_eq (s ++ t) [] ≡ false
nonempty-append [] t h = cc
nonempty-append (b ∷ s) t h = refl

peer_text-nonempty :
    (args : InitArgs) (i : ℕ) (id : Bytes) → bytes_eq (peer_text args i id) [] ≡ false
peer_text-nonempty args i [] = refl
peer_text-nonempty args i (b ∷ id) = refl

joined-nonempty :
    (args : InitArgs) (i : ℕ) (id : Bytes) (ids : List Bytes)
    → bytes_eq (joined (peer_addresses args i (id ∷ ids))) [] ≡ false
joined-nonempty args i id [] = peer_text-nonempty args i id
joined-nonempty args i id (id' ∷ ids) =
    nonempty-append (peer_text args i id ++ lit ",") _
      (nonempty-append (peer_text args i id) (lit ",") (peer_text-nonempty args i id))

peer_addresses-append :
    (args : InitArgs) (i : ℕ) (ids : List Bytes) (id : Bytes)
    → peer_addresses args i (ids ++ (id ∷ []))
      ≡ peer_addresses args i ids ++ (peer_text args (i + length ids) id ∷ [])
peer_addresses-append args i [] id = let start : i + 0 ≡ i = omega arith in rw start
peer_addresses-append args i (x ∷ ids) id =
    let count : i + suc (length ids) ≡ i + 1 + length ids = omega arith in
    rw (count, peer_addresses-append args (i + 1) ids id)

add_peer-joined :
    (args : InitArgs) (ids : List Bytes) (memo : Bytes)
    → add_peer memo (joined (peer_addresses args 0 ids))
      ≡ joined (peer_addresses args 0 ids ++ (memo ∷ []))
unfolding add_peer
add_peer-joined args [] memo = refl
add_peer-joined args (id ∷ ids) memo = rw (
  joined-nonempty args 0 id ids,
  joined-append (peer_text args 0 id) (peer_addresses args 1 ids) memo,
)

-- A round of the loop adds a node.
record Added (n : Network) (args : InitArgs) (i : ℕ) (p p' : Progress n) : Type 0 where
  id : Bytes
  key : n.PubKey
  file : Bytes
  ids : p'.node_ids ≡ p.node_ids ++ (id ∷ [])
  keys : p'.val_pub_keys ≡ p.val_pub_keys ++ (key ∷ [])
  files : p'.gen_files ≡ p.gen_files ++ (file ∷ [])
  peers : p'.persistent_peers ≡ add_peer (peer_text args i id) p.persistent_peers

module _ (k : Sdk) (n : Network) (args : InitArgs) where
  abbrev Summary : Type 0
  Summary = List Bytes × List n.PubKey × List Bytes × Bytes

  abbrev summary : Progress n → Summary
  summary p = (p.node_ids, p.val_pub_keys, p.gen_files, p.persistent_peers)

  fill_node-summary :
      (i : ℕ) (node : Bytes × n.PubKey) (p : Progress n) (v : Summary)
      → summary p ≡ v
      → summary (fill_node k n args i node p).1 ≡ v
  unfolding fill_node
  fill_node-summary i node p v h =
      after-keeps summary (on_world n (make_key n args i) p) _ v h λ owner p₁ h₁.
        after-keeps summary (genesis_coins k n, p₁) _ v h₁
          λ coins p₂ h₂.
            after-keeps summary
              (on_world n (make_gentx k n args i node owner) (with_account n owner.addr coins p₂)) _
              v h₂ λ tx p₃ h₃. h₃

  add_node-Added :
      (i : ℕ) (p p' : Progress n) → add_node k n args i p ≡ (ok tt, p') → Added n args i p p'
  unfolding add_node open_node write_app_toml peer_address
  add_node-Added i p p' e =
      let (node, p₁, opened, e₁) = after-eq-ok (open_node n args i p) _ e in
      let (_, p₂, filled, e₂) = after-eq-ok (fill_node k n args i node p₁) _ e₁ in
      let q = configured n args i p in
      let (_, q₁, made, f₁) =
        after-eq-ok
          (on_world n
            (or_clean n args.output_dir
              (n.mkdir_all (n.join (node_dir n args i ∷ config_name ∷ [])) 493))
            q)
          _ opened in
      let (node', q₂, init, f₂) =
        after-eq-ok
          (on_world n
            (or_clean n args.output_dir (n.initialize_node_validator_files q₁.node_config)) q₁)
          _ f₁ in
      let last : summary p' ≡ summary p₁ =
        sym (ap (λ r. summary r.1) e₂)
        ∙ ap (λ r. summary r.1) (sym filled)
        ∙ fill_node-summary i node p₁ _ refl in
      let before : summary q₂ ≡ summary p =
        sym (ap (λ r. summary r.1) init) ∙ sym (ap (λ r. summary r.1) made) in
      let there : summary (with_node n args i node' q₂) ≡ summary p₁ = ap (λ r. summary r.1) f₂ in
      record {
        id = node'.0;
        key = node'.1;
        file = n.genesis_file q₂.node_config;
        ids = ap (λ v. v.0) (last ∙ sym there) ∙ ap (λ v. v.0 ++ (node'.0 ∷ [])) before;
        keys = ap (λ v. v.1) (last ∙ sym there) ∙ ap (λ v. v.1 ++ (node'.1 ∷ [])) before;
        files =
            ap (λ v. v.2) (last ∙ sym there)
            ∙ ap (λ v. v.2 ++ (n.genesis_file q₂.node_config ∷ [])) before;
        peers =
            ap (λ v. v.3) (last ∙ sym there)
            ∙ ap (λ v. add_peer (peer_text args i node'.0) v.3) before;
      }

  abbrev Invariant : ℕ → Progress n → Type 0
  Invariant i p =
      (length p.node_ids ≡ i)
      × (length p.val_pub_keys ≡ i)
      × (length p.gen_files ≡ i)
      × (p.persistent_peers ≡ joined (peer_addresses args 0 p.node_ids))

  add_node-Invariant :
      (i : ℕ) (p p' : Progress n)
      → Invariant i p
      → add_node k n args i p ≡ (ok tt, p')
      → Invariant (i + 1) p'
  add_node-Invariant i p p' (ids, keys, files, peers) e =
      let more = add_node-Added i p p' e in
      let count : 0 + length p.node_ids ≡ length p.node_ids = omega arith in
      (
        ap length more.ids ∙ length-append p.node_ids (more.id ∷ []) ∙ ap (λ l. l + 1) ids,
        ap length more.keys ∙ length-append p.val_pub_keys (more.key ∷ []) ∙ ap (λ l. l + 1) keys,
        ap length more.files ∙ length-append p.gen_files (more.file ∷ []) ∙ ap (λ l. l + 1) files,
        more.peers
            ∙ ap (add_peer (peer_text args i more.id)) peers
            ∙ add_peer-joined args p.node_ids (peer_text args i more.id)
            ∙ ap joined (
                sym (
                  peer_addresses-append args 0 p.node_ids more.id
                  ∙ ap (λ j. peer_addresses args 0 p.node_ids ++ (peer_text args j more.id ∷ []))
                      (count ∙ ids)))
            ∙ ap (λ l. joined (peer_addresses args 0 l)) (sym more.ids),
      )

  world_of-eq-ok :
      (r : Outcome Done × Progress n) {p : Progress n} {w : n.World}
      → world_of k n (λ p. p.world) r ≡ (ok p, w)
      → r ≡ (ok tt, p)
  world_of-eq-ok (ok a, s) e = ap (λ s. (ok tt, s)) (ok_inj (ap (λ r. r.0) e))
  world_of-eq-ok (err x, s) e = cc
  world_of-eq-ok (panic, s) e = cc

  -- Where the loop over the nodes returns, it has collected an id, a key and a genesis file for
  -- each node, so that the later loops find the entries they index, and the persistent peers are
  -- the texts of the nodes in their order, joined by commas: a node's id, an at sign, the starting
  -- IP address, which is the same for all, a colon, and 26656 less three times the node's number.
  pub add_nodes-joined :
      (config : NodeConfig) (w w' : n.World) (p : Progress n)
      → add_nodes k n args config w ≡ (ok p, w')
      → (length p.node_ids ≡ pos_part args.num_validators)
        × (length p.val_pub_keys ≡ pos_part args.num_validators)
        × (length p.gen_files ≡ pos_part args.num_validators)
        × (p.persistent_peers ≡ joined (peer_addresses args 0 p.node_ids))
  unfolding add_nodes start
  add_nodes-joined config w w' p e =
      let count : 0 + pos_part args.num_validators ≡ pos_part args.num_validators = omega arith in
      subst (λ c. Invariant c p) count
        (for_count-inv Invariant (add_node k n args) add_node-Invariant 0
          (pos_part args.num_validators) _ p (refl, refl, refl, refl)
          (world_of-eq-ok
            (for_count (add_node k n args) 0 (pos_part args.num_validators)
              (start k n args config w))
            e))
