-- ===== src/Ghostdag/Path/Trails.antt =====
-- Each visited block has a trail back to the block that the search began with.
use cytah_speed.Prelude.{
  ℕ, zero, suc, ◌≤◌, ◌≡◌, refl, subst, true, false, none, some, List, [], ◌∷◌, ◌++◌, arith, ==_iff,
  ==_self, contains, length, length-append, Table, get, insert, get-insert, Bool-cases, inl, inr,
}
use mathlib.Core.List.{reverse, reverse-cons}
use cytah_speed.Core.Block.{BlockHash, Block}
use cytah_speed.Dag.Index.{parents_of}
use cytah_speed.Dag.Worklist.Found.{contains-append}
use cytah_speed.Ghostdag.Path.{trace}

module _ (store : Table Block) (to : BlockHash) where
  -- A path from `to`, in which every further block is a parent of the one before it.
  pub data Descends : BlockHash → List BlockHash → Type 0 where
    at_start : Descends to (to ∷ [])
    down :
        {u v : BlockHash} {path : List BlockHash}
        → Descends u path
        → contains (parents_of store u) v ≡ true
        → Descends v (path ++ v ∷ [])

  -- What the map of parents knows of a block: a chain of entries back to `to`.
  pub data Trail (links : Table BlockHash) (visited : List BlockHash)
      : ℕ → BlockHash → List BlockHash → Type 0 where
    base : get to links ≡ none → contains visited to ≡ true → Trail links visited 1 to (to ∷ [])
    link :
        {n : ℕ} {u v : BlockHash} {path : List BlockHash}
        → get v links ≡ some u
        → contains visited v ≡ true
        → contains (parents_of store u) v ≡ true
        → Trail links visited n u path
        → Trail links visited (suc n) v (v ∷ path)

  pub Trail-Descends :
      (links : Table BlockHash) (visited : List BlockHash) {n : ℕ} {v : BlockHash}
      {path : List BlockHash}
      → Trail links visited n v path
      → Descends v (reverse path)
  Trail-Descends links visited (Trail.base e m) = Descends.at_start
  Trail-Descends links visited (Trail.link {v = v} {path = path} e m named rest) =
      rw (reverse-cons v path) (Descends.down (Trail-Descends links visited rest) named)

  pub Trail-trace :
      (links : Table BlockHash) (visited : List BlockHash) {n : ℕ} {v : BlockHash}
      {path : List BlockHash} (fuel : ℕ)
      → Trail links visited n v path
      → n ≤ fuel
      → trace links fuel v ≡ some path
  unfolding trace
  Trail-trace links visited zero (Trail.base e m) le = absurd (omega arith)
  Trail-trace links visited zero (Trail.link e m named rest) le = absurd (omega arith)
  Trail-trace links visited (suc fuel) (Trail.base e m) le = rw (e, trace) refl
  Trail-trace links visited (suc fuel) (Trail.link e m named rest) le =
      rw (e, trace, Trail-trace links visited fuel rest (omega arith)) refl

  -- An entry for a new block leaves the trails of the others.
  Trail-insert :
      (links : Table BlockHash) (visited : List BlockHash) (w c : BlockHash) {n : ℕ} {v : BlockHash}
      {path : List BlockHash}
      → contains visited w ≡ false
      → Trail links visited n v path
      → Trail (insert w c links) (visited ++ w ∷ []) n v path
  Trail-insert links visited w c new (Trail.base e m) =
      Trail.base (ground (arith, get-insert to w c links, ==_iff w to, e, new, m))
        (ground (arith, contains-append visited (w ∷ []) to, m))
  Trail-insert links visited w c new (Trail.link {v = v} e m named rest) =
      Trail.link (ground (arith, get-insert v w c links, ==_iff w v, e, new, m))
        (ground (arith, contains-append visited (w ∷ []) v, m)) named
        (Trail-insert links visited w c new rest)

  -- Every visited block has a trail, no longer than the list of visited blocks.
  abbrev pub IsMarked : Table BlockHash → List BlockHash → Type 0
  IsMarked links visited =
      (v : BlockHash)
      → contains visited v ≡ true
      → (n : ℕ) × (path : List BlockHash) × Trail links visited n v path × (n ≤ length visited)

  pub IsMarked-insert :
      (links : Table BlockHash) (visited : List BlockHash) (current p : BlockHash)
      → IsMarked links visited
      → contains visited current ≡ true
      → contains visited p ≡ false
      → contains (parents_of store current) p ≡ true
      → IsMarked (insert p current links) (visited ++ p ∷ [])
  IsMarked-insert links visited current p marked known new named v m =
      elim (Bool-cases (contains visited v)) [
        | inl old ↦
            let (n, path, trail, short) = marked v old in
            (
              n,
              path,
              Trail-insert links visited p current new trail,
              omega (arith, short, length-append visited (p ∷ [])),
            )
        | inr fresh ↦
            let same : p ≡ v = ground (arith, m, fresh, contains-append visited (p ∷ []) v) in
            let (n, path, trail, short) = marked current known in
            subst
              (λ (x : BlockHash).
                (k : ℕ) × (way : List BlockHash) × Trail (insert p current links)
                  (visited ++ p ∷ []) k x way
                × (k ≤ length (visited ++ p ∷ [])))
              same
              (
                suc n,
                p ∷ path,
                Trail.link (ground (arith, get-insert p p current links, ==_self p))
                    (ground (arith, contains-append visited (p ∷ []) p, ==_self p)) named
                    (Trail-insert links visited p current new trail),
                omega (arith, short, length-append visited (p ∷ [])),
              )
      ]
