-- ===== src/Consensus/Daa/Window.antt =====
-- The next difficulty of a graph (`next_difficulty` in src/consensus/daa.rs) is that of all its
-- blocks in topological order, although only a window of them is read.
use cytah_speed.Prelude.{
  ℕ, zero, suc, ◌-◌, ◌*◌, ◌≤◌, ◌≡◌, refl, ap, sym, ◌∙◌, true, false, Option, none, some, List, [],
  ◌∷◌, ◌++◌, arith, ltb, ==_self, length, take, drop, contains, contains_key, Table, get,
  length-append, length-drop, Option-cases, Bool-cases, inl, inr,
}
use mathlib.Core.List.{reverse, reverse-append, reverse-reverse, reverse-cons, append-nil}
use cytah_speed.Core.Block.{BlockHash, Block, Node}
use cytah_speed.Consensus.Reward.{Floats}
use cytah_speed.Consensus.Daa.{
  daa_window, target_block_time, last_block, actual_timespan, clamp, scale_difficulty,
  calculate_next_difficulty,
}
use cytah_speed.Dag.Engine.{BlockDag}
use cytah_speed.Dag.Order.{blocks_at, get_topological_order}
use cytah_speed.Dag.Order.Complete.{IsTopological, get_topological_order-IsTopological}
use cytah_speed.Dag.Integrity.Grown.{Grown, Grown-IsSound}

-- The loop over the newest hashes, whose result is then turned around.
unfoldable pub recent_blocks : Table Block → List BlockHash → List Block
recent_blocks store order = reverse (blocks_at (take daa_window (reverse order)) store)

-- `none` means that the fuel of the order ran out.
unfoldable pub next_difficulty : Floats → BlockDag → Option ℕ
unfolding recent_blocks
next_difficulty fl dag = elim (get_topological_order dag.store dag.index) [
  | none ↦ none
  | some order ↦ some (calculate_next_difficulty fl (recent_blocks dag.store order))
]

take-append : (n : ℕ) (xs ys : List ℕ) → length xs ≡ n → take n (xs ++ ys) ≡ xs
take-append zero [] ys e = refl
take-append zero (x ∷ xs) ys e = absurd (omega arith)
take-append (suc n) [] ys e = absurd (omega arith)
take-append (suc n) (x ∷ xs) ys e = ap (λ (l : List ℕ). x ∷ l) (take-append n xs ys (omega arith))

take-all : (n : ℕ) (xs : List ℕ) → length xs ≤ n → take n xs ≡ xs
take-all zero [] le = refl
take-all zero (x ∷ xs) le = absurd (omega arith)
take-all (suc n) [] le = refl
take-all (suc n) (x ∷ xs) le = ap (λ (l : List ℕ). x ∷ l) (take-all n xs (omega arith))

take-drop : (n : ℕ) (xs : List ℕ) → take n xs ++ drop n xs ≡ xs
take-drop zero xs = refl
take-drop (suc n) [] = refl
take-drop (suc n) (x ∷ xs) = ap (λ (l : List ℕ). x ∷ l) (take-drop n xs)

length-reverse : (xs : List ℕ) → length (reverse xs) ≡ length xs
length-reverse [] = refl
length-reverse (x ∷ xs) =
    ap (length {A = ℕ}) (reverse-cons x xs)
    ∙ omega (arith, length-append (reverse xs) (x ∷ []), length-reverse xs)

-- The first entries of the reversed list are the last ones of the list.
take-reverse : (n : ℕ) (xs : List ℕ) → take n (reverse xs) ≡ reverse (drop (length xs - n) xs)
take-reverse n xs = elim (Bool-cases (ltb n (length xs))) [
  | inr all ↦
      let whole : length xs - n ≡ 0 = ground arith in
      take-all n (reverse xs) (ground (arith, length-reverse xs)) ∙ rw whole
  | inl some_left ↦
      let k = length xs - n in
      ap (λ (l : List ℕ). take n (reverse l)) (sym (take-drop k xs))
      ∙ ap (take n) (reverse-append (take k xs) (drop k xs))
      ∙ take-append n (reverse (drop k xs)) (reverse (take k xs))
          (ground (arith, length-reverse (drop k xs), length-drop k xs))
]

blocks_at-append :
    (xs ys : List BlockHash) (store : Table Block)
    → blocks_at (xs ++ ys) store ≡ blocks_at xs store ++ blocks_at ys store
unfolding blocks_at
blocks_at-append [] ys store = refl
blocks_at-append (x ∷ xs) ys store = elim (Option-cases (get x store)) [
  | inl absent ↦ ground (arith, absent, blocks_at-append xs ys store)
  | inr (b, found) ↦ ground (arith, found, blocks_at-append xs ys store)
]

blocks_at-reverse :
    (xs : List BlockHash) (store : Table Block)
    → blocks_at (reverse xs) store ≡ reverse (blocks_at xs store)
unfolding blocks_at
blocks_at-reverse [] store = refl
blocks_at-reverse (x ∷ xs) store =
    ap (λ l. blocks_at l store) (reverse-cons x xs)
    ∙ blocks_at-append (reverse xs) (x ∷ []) store
    ∙ elim (Option-cases (get x store)) [
      | inl absent ↦ rw (absent, blocks_at) (append-nil _ ∙ blocks_at-reverse xs store)
      | inr (b, found) ↦
          rw (found, blocks_at)
            (ap (λ l. l ++ b ∷ []) (blocks_at-reverse xs store)
              ∙ sym (reverse-cons b (blocks_at xs store)))
    ]

-- If all hashes are stored, blocks and hashes correspond.
length-blocks_at :
    (xs : List BlockHash) (store : Table Block)
    → ((h : BlockHash) → contains xs h ≡ true → contains_key h store ≡ true)
    → length (blocks_at xs store) ≡ length xs
unfolding blocks_at
length-blocks_at [] store known = refl
length-blocks_at (x ∷ xs) store known = ground (
  arith,
  known x (ground (arith, ==_self x)),
  length-blocks_at xs store (λ h m. known h (ground (arith, m))),
)

blocks_at-drop :
    (n : ℕ) (xs : List BlockHash) (store : Table Block)
    → ((h : BlockHash) → contains xs h ≡ true → contains_key h store ≡ true)
    → blocks_at (drop n xs) store ≡ drop n (blocks_at xs store)
unfolding blocks_at
blocks_at-drop zero xs store known = refl
blocks_at-drop (suc n) [] store known = refl
blocks_at-drop (suc n) (x ∷ xs) store known = ground (
  arith,
  known x (ground (arith, ==_self x)),
  blocks_at-drop n xs store (λ h m. known h (ground (arith, m))),
)

-- The hashes of the window give the last blocks.
recent_blocks-eq :
    (order : List BlockHash) (store : Table Block)
    → ((h : BlockHash) → contains order h ≡ true → contains_key h store ≡ true)
    → let blocks = blocks_at order store in
      recent_blocks store order ≡ drop (length blocks - daa_window) blocks
unfolding recent_blocks
recent_blocks-eq order store known =
    let newest = drop (length order - daa_window) order in
    ap (λ l. reverse (blocks_at l store)) (take-reverse daa_window order)
    ∙ ap reverse (blocks_at-reverse newest store)
    ∙ reverse-reverse (blocks_at newest store)
    ∙ blocks_at-drop (length order - daa_window) order store known
    ∙ rw (length-blocks_at order store known)

module _ (fl : Floats) where
  open fl use {fraction, from_u64, div}

  abbrev of_window : List Block → ℕ
  of_window recent =
      let expected = from_u64 (daa_window * target_block_time) in
      let ratio = div (from_u64 (actual_timespan recent)) expected in
      elim (last_block recent) [
        | none ↦ 1
        | some b ↦
            scale_difficulty fl b.header.difficulty (clamp fl (fraction 1 4) (fraction 4 1) ratio)
      ]

  full_window :
      (blocks : List Block)
      → ltb (length blocks) daa_window ≡ false
      → calculate_next_difficulty fl blocks ≡ of_window (drop (length blocks - daa_window) blocks)
  unfolding calculate_next_difficulty
  full_window blocks full = rw (full, calculate_next_difficulty) refl

  calculate_next_difficulty-window :
      (blocks : List Block)
      → calculate_next_difficulty fl (drop (length blocks - daa_window) blocks)
        ≡ calculate_next_difficulty fl blocks
  calculate_next_difficulty-window blocks = elim (Bool-cases (ltb (length blocks) daa_window)) [
    | inl short ↦
        let whole : length blocks - daa_window ≡ 0 = ground arith in
        ap (λ n. calculate_next_difficulty fl (drop n blocks)) whole
    | inr full ↦
        let recent = drop (length blocks - daa_window) blocks in
        let size : length recent ≡ daa_window =
          ground (arith, length-drop (length blocks - daa_window) blocks) in
        let all : length recent - daa_window ≡ 0 = omega (arith, size) in
        full_window recent (ground (arith, size))
        ∙ ap (λ n. of_window (drop n recent)) all
        ∙ sym (full_window blocks full)
  ]

  -- On a graph that insertions have grown from the empty one, `next_difficulty` returns, and what
  -- it returns is the difficulty that `calculate_next_difficulty` gives for all blocks of the
  -- graph in an order that lists each block once and behind its parents.
  pub next_difficulty-eq :
      (nd : Node) (dag : BlockDag)
      → Grown nd dag
      → (order : List BlockHash) × IsTopological dag.store order
        × (next_difficulty fl dag ≡ some (calculate_next_difficulty fl (blocks_at order dag.store)))
  unfolding next_difficulty
  next_difficulty-eq nd dag grown =
      let sound = Grown-IsSound nd dag grown in
      let (order, returned, topological) =
        get_topological_order-IsTopological dag.store sound.linked dag.index sound.orderable.keyed
          sound.orderable.counted in
      (
        order,
        topological,
        rw
            (
              returned,
              next_difficulty,
              recent_blocks-eq order dag.store (λ h m. sym (topological.complete h) ∙ m),
            )
            (ap some (calculate_next_difficulty-window (blocks_at order dag.store))),
      )
