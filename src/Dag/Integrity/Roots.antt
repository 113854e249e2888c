-- ===== src/Dag/Integrity/Roots.antt =====
-- Below every block with parents there is a block without, which some block names. So there is
-- one as soon as there are two tips.
use cytah_speed.Prelude.{
  ℕ, zero, suc, ◌<◌, ◌≡◌, ◌≢◌, true, some, List, [], ◌∷◌, arith, ==_self, contains, length, Table,
  get, List-cases, Bool-cases, inl, inr,
}
use cytah_speed.Core.Block.{BlockHash, Block, Node, to_set}
use cytah_speed.Dag.Engine.{BlockDag}
use cytah_speed.Dag.Engine.Parents.{IsLinked, stored_some}
use cytah_speed.Dag.Integrity.Grown.{IsSound}

-- A stored block without parents that a stored block names.
pub record NamedRoot (store : Table Block) : Type 0 where
  pub root : BlockHash
  pub child : BlockHash
  pub root_block : Block
  pub child_block : Block
  pub root_stored : get root store ≡ some root_block
  pub child_stored : get child store ≡ some child_block
  pub parentless : root_block.header.parent_hashes ≡ []
  pub named : contains child_block.header.parent_hashes root ≡ true

root_below :
    (store : Table Block) (n : ℕ) (h : BlockHash) (b : Block) (p : BlockHash) (ps : List BlockHash)
    → IsLinked store
    → get h store ≡ some b
    → b.header.parent_hashes ≡ p ∷ ps
    → b.height < n
    → NamedRoot store
root_below store zero h b p ps linked found parents low = absurd (omega arith)
root_below store (suc n) h b p ps linked found parents low =
    let named : contains b.header.parent_hashes p ≡ true = rw parents (ground (arith, ==_self p)) in
    let (q, stored, lower) = (linked h b found).parents p named in
    elim (List-cases q.header.parent_hashes) [
      | inl bottom ↦ record {
        root = p;
        child = h;
        root_block = q;
        child_block = b;
        root_stored = stored;
        child_stored = found;
        parentless = bottom;
        named = named;
      }
      | inr (r, rs, more) ↦ root_below store n p q r rs linked stored more (omega arith)
    ]

-- A set with two elements.
two_members :
    (xs : List ℕ)
    → 1 < length (to_set xs)
    → (a : ℕ) × (b : ℕ) × (contains xs a ≡ true) × (contains xs b ≡ true) × (a ≢ b)
unfolding to_set
two_members [] big = absurd (omega arith)
two_members (x ∷ xs) big = elim (Bool-cases (contains xs x)) [
  | inl again ↦
      let (a, b, ma, mb, ne) = two_members xs (ground arith) in
      (a, b, ground (arith, ma), ground (arith, mb), ne)
  | inr fresh ↦ elim (List-cases xs) [
    | inl alone ↦ absurd (ground (arith, alone))
    | inr (y, ys, more) ↦
        let there : contains xs y ≡ true = rw more (ground (arith, ==_self y)) in
        (x, y, ground (arith, ==_self x), ground (arith, there), λ e. ground (arith, e, there))
  ]
]

pub tips-NamedRoot :
    (nd : Node) (dag : BlockDag)
    → IsSound nd dag
    → 1 < length (to_set dag.index.tips)
    → NamedRoot dag.store
tips-NamedRoot nd dag sound big =
    let (a, b, tip_a, tip_b, ne) = two_members dag.index.tips big in
    let (x, stored_x) = stored_some a dag.store (sound.indexed.stored_tip a tip_a) in
    let (y, stored_y) = stored_some b dag.store (sound.indexed.stored_tip b tip_b) in
    elim (List-cases x.header.parent_hashes) [
      | inr (p, ps, more) ↦
          root_below dag.store (suc x.height) a x p ps sound.linked stored_x more (omega arith)
      | inl bottom ↦ elim (List-cases y.header.parent_hashes) [
        | inr (p, ps, more) ↦
            root_below dag.store (suc y.height) b y p ps sound.linked stored_y more (omega arith)
        | inl bottom' ↦ absurd (ne (sound.rooted a b x y stored_x stored_y bottom bottom'))
      ]
    ]
