-- ===== src/State/Tree/Merkle.antt =====
-- The tree that `rebuild_tree` makes commits to every account, in the order of iteration.
use cytah_speed.Prelude.{
  ℕ, zero, suc, ◌≤◌, ◌≡◌, refl, ap, sym, ◌∙◌, Option, none, some, List, [], ◌∷◌, ◌++◌, map, length,
  All, arith, Table,
}
use mathlib.Core.List.{append_assoc, append-nil}
use cytah_speed.Core.Transaction.{Address}
use cytah_speed.State.Tree.{
  Account, Runtime, MerkleNode, node_hash, leaf_hash, internal_hash, new_leaf, new_internal,
  merge_chunks, merge_levels, next, rebuild_tree,
}

-- The accounts below a node, from left to right.
unfoldable pub accounts : MerkleNode → List (Address × Account)
accounts (MerkleNode.leaf h k v) = (k, v) ∷ []
accounts (MerkleNode.internal h l r) = accounts l ++ accounts r

unfoldable pub all_accounts : List MerkleNode → List (Address × Account)
unfolding accounts
all_accounts [] = []
all_accounts (n ∷ ns) = accounts n ++ all_accounts ns

module _ (rt : Runtime) where
  -- Every hash in the tree is the digest of what stands below it.
  abbrev pub IsHashed : MerkleNode → Type 0
  IsHashed (MerkleNode.leaf h k v) = h ≡ leaf_hash rt k v
  IsHashed (MerkleNode.internal h l r) =
      (h ≡ internal_hash rt (node_hash l) (node_hash r)) × IsHashed l × IsHashed r

  all_accounts-merge_chunks :
      (ns : List MerkleNode) → all_accounts (merge_chunks rt ns) ≡ all_accounts ns
  unfolding all_accounts merge_chunks
  all_accounts-merge_chunks [] = refl
  all_accounts-merge_chunks (a ∷ []) = refl
  all_accounts-merge_chunks (a ∷ b ∷ rest) = simp (all_accounts-merge_chunks rest, append_assoc)

  IsHashed-merge_chunks :
      (ns : List MerkleNode) → All IsHashed ns → All IsHashed (merge_chunks rt ns)
  unfolding merge_chunks
  IsHashed-merge_chunks [] h = tt
  IsHashed-merge_chunks (a ∷ []) h = h
  IsHashed-merge_chunks (a ∷ b ∷ rest) h = ((refl, h.0, h.1.0), IsHashed-merge_chunks rest h.1.1)

  length-merge_chunks : (ns : List MerkleNode) → length (merge_chunks rt ns) ≤ length ns
  unfolding merge_chunks
  length-merge_chunks [] = omega arith
  length-merge_chunks (a ∷ []) = omega arith
  length-merge_chunks (a ∷ b ∷ rest) = omega (arith, length-merge_chunks rest)

  merge_chunks-ne-nil :
      (n : MerkleNode) (ns : List MerkleNode) → 1 ≤ length (merge_chunks rt (n ∷ ns))
  unfolding merge_chunks
  merge_chunks-ne-nil n [] = omega arith
  merge_chunks-ne-nil n (b ∷ rest) = omega arith

  -- Enough fuel leaves one node, which holds all accounts under correct hashes.
  record Merged (ns : List MerkleNode) (fuel : ℕ) : Type 0 where
    top : MerkleNode
    single : merge_levels rt fuel ns ≡ top ∷ []
    complete : accounts top ≡ all_accounts ns
    hashed : IsHashed top

  merge_levels-Merged :
      (fuel : ℕ) (n : MerkleNode) (ns : List MerkleNode)
      → length ns ≤ fuel
      → All IsHashed (n ∷ ns)
      → Merged (n ∷ ns) (suc fuel)
  unfolding merge_levels all_accounts
  merge_levels-Merged fuel n [] le h = record {
    top = n;
    single = refl;
    complete = sym (append-nil _);
    hashed = h.0;
  }
  merge_levels-Merged zero n (b ∷ rest) le h = absurd (omega arith)
  merge_levels-Merged (suc fuel) n (b ∷ rest) le h =
      let below =
        merge_levels-Merged fuel (new_internal rt n b) (merge_chunks rt rest)
          (omega (arith, length-merge_chunks rest)) (IsHashed-merge_chunks (n ∷ b ∷ rest) h) in
      record {
        top = below.top;
        single = below.single;
        complete = below.complete ∙ all_accounts-merge_chunks (n ∷ b ∷ rest);
        hashed = below.hashed;
      }

  all_accounts-map : (m : Table Account) → all_accounts (map (new_leaf rt) m) ≡ m
  unfolding all_accounts new_leaf
  all_accounts-map [] = refl
  all_accounts-map (e ∷ m) = ap (λ r. e ∷ r) (all_accounts-map m)

  IsHashed-map : (m : Table Account) → All IsHashed (map (new_leaf rt) m)
  unfolding new_leaf
  IsHashed-map [] = tt
  IsHashed-map (e ∷ m) = (refl, IsHashed-map m)

  -- What a root over a list of accounts is: none for no account, and otherwise a tree whose
  -- leaves are those accounts in that order, with the right digest at every node.
  abbrev pub Commits : Option MerkleNode → List (Address × Account) → Type 0
  Commits none m = m ≡ []
  Commits (some n) m = (accounts n ≡ m) × IsHashed n

  Commits-levels :
      (m : Table Account)
      → Commits (next rt (merge_levels rt (length (map (new_leaf rt) m)) (map (new_leaf rt) m))) m
  unfolding merge_levels
  Commits-levels [] = refl
  Commits-levels (e ∷ m) =
      let built =
        merge_levels-Merged (length (map (new_leaf rt) m)) (new_leaf rt e) (map (new_leaf rt) m)
          (omega arith) (IsHashed-map (e ∷ m)) in
      rw (built.single) (built.complete ∙ all_accounts-map (e ∷ m), built.hashed)

  -- For every table `rebuild_tree` ends with at most one node: none if the iteration yields no
  -- account, and otherwise a root whose leaves are exactly the accounts that the iteration
  -- yields, in its order, every node holding the digest of its children or of its account.
  pub rebuild_tree-Commits : (m : Table Account) → Commits (rebuild_tree rt m) (rt.order m)
  unfolding rebuild_tree
  rebuild_tree-Commits m = Commits-levels (rt.order m)
