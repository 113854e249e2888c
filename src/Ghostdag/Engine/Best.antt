-- ===== src/Ghostdag/Engine/Best.antt =====
-- The best of some scored candidates, by scanning and by sorting.
use cytah_speed.Prelude.{
  ℕ, ◌≡◌, refl, sym, ap, subst, ◌∙◌, Bool, true, ◌&&◌, ◌||◌, List, [], ◌∷◌, ◌++◌, arith, ◌==◌,
  ==_iff, ==_self, leb, ltb, contains, map, All, Bool-cases, inl, inr, if◌then◌else◌,
}
use cytah_speed.Core.Block.{BlockHash}
use cytah_speed.Dag.Worklist.Found.{contains-append}
use cytah_speed.Ghostdag.Engine.{Outcome, insert_scored, sort_scored, first_hash}

-- The order of scored blocks: score downwards, then hash upwards.
abbrev pub comes_before : BlockHash × ℕ → BlockHash × ℕ → Bool
comes_before x y = ltb y.1 x.1 || (y.1 == x.1 && leb x.0 y.0)

-- A candidate of greatest score, and among those the one with the least hash.
pub record IsBest (score : BlockHash → ℕ) (ps : List BlockHash) (best : BlockHash) : Type 0 where
  pub candidate : contains ps best ≡ true
  pub first :
      (p : BlockHash) → contains ps p ≡ true → comes_before (best, score best) (p, score p) ≡ true

-- There is at most one.
pub IsBest-unique :
    (score : BlockHash → ℕ) (ps : List BlockHash) (a b : BlockHash)
    → IsBest score ps a
    → IsBest score ps b
    → a ≡ b
IsBest-unique score ps a b x y = ground (arith, x.first b y.candidate, y.first a x.candidate)

pub IsBest-one : (score : BlockHash → ℕ) (p : BlockHash) → IsBest score (p ∷ []) p
IsBest-one score p = record {
  candidate = ground (arith, ==_self p);
  first = λ q m.
      let same : p ≡ q = (==_iff p q).0 (ground arith) in
      subst (λ (x : ℕ). comes_before (p, score p) (x, score x) ≡ true) same (ground arith);
}

pub IsBest-next :
    (score : BlockHash → ℕ) (seen : List BlockHash) (best p : BlockHash)
    → IsBest score seen best
    → IsBest score
        (seen ++ p ∷ [])
        (if ltb (score best) (score p) || (score p == score best && ltb p best) then p else best)
IsBest-next score seen best p old = elim (Bool-cases better) [
  | inl wins ↦ rw wins (record {
    candidate = ground (arith, contains-append seen (p ∷ []) p, ==_self p);
    first = λ q m. elim (Bool-cases (p == q)) [
      | inl same ↦ itself q same
      | inr other ↦ ground (arith, contains-append seen (p ∷ []) q, old.first q, wins)
    ];
  })
  | inr stays ↦ rw stays (record {
    candidate = ground (arith, contains-append seen (p ∷ []) best, old.candidate);
    first = λ q m. elim (Bool-cases (p == q)) [
      | inl same ↦
          subst (λ (x : ℕ). comes_before (best, score best) (x, score x) ≡ true)
            ((==_iff p q).0 same) (ground (arith, stays))
      | inr other ↦ ground (arith, contains-append seen (p ∷ []) q, old.first q)
    ];
  })
]
  where
    better : Bool
    better = ltb (score best) (score p) || (score p == score best && ltb p best)

    itself : (q : ℕ) → (p == q) ≡ true → comes_before (p, score p) (q, score q) ≡ true
    itself q same =
        subst (λ (x : ℕ). comes_before (p, score p) (x, score x) ≡ true) ((==_iff p q).0 same)
          (ground arith)

-- What stands first after sorting.
record IsHead (xs : List (BlockHash × ℕ)) (y : BlockHash × ℕ) : Type 0 where
  member : contains (map (λ x. x.0) xs) y.0 ≡ true
  first : All (λ z. comes_before y z ≡ true) xs
  one_of : (f : BlockHash → ℕ) → All (λ z. z.1 ≡ f z.0) xs → y.1 ≡ f y.0

All-comes_before :
    (x y : BlockHash × ℕ) (zs : List (BlockHash × ℕ))
    → comes_before x y ≡ true
    → All (λ z. comes_before y z ≡ true) zs
    → All (λ z. comes_before x z ≡ true) zs
All-comes_before x y [] e h = tt
All-comes_before x y (z ∷ zs) e h = (ground (arith, h.0), All-comes_before x y zs e h.1)

sort_scored-IsHead :
    (x : BlockHash × ℕ) (xs : List (BlockHash × ℕ))
    → (y : BlockHash × ℕ) × (ys : List (BlockHash × ℕ)) × (sort_scored (x ∷ xs) ≡ y ∷ ys)
      × IsHead (x ∷ xs) y
unfolding sort_scored insert_scored
sort_scored-IsHead x [] = (
  x,
  [],
  refl,
  record { member = ground (arith, ==_self x.0); first = (ground arith, tt); one_of = λ f h. h.0 },
)
sort_scored-IsHead x (z ∷ zs) =
    let (y, ys, sorted, head) = sort_scored-IsHead z zs in
    let inserted : sort_scored (x ∷ z ∷ zs) ≡ insert_scored x (y ∷ ys) =
      ap (insert_scored x) sorted in
    elim (Bool-cases (comes_before x y)) [
      | inl front ↦ (
        x,
        y ∷ ys,
        inserted ∙ rw front refl,
        record {
          member = ground (arith, ==_self x.0);
          first = (ground arith, All-comes_before x y (z ∷ zs) front head.first);
          one_of = λ f h. h.0;
        },
      )
      | inr behind ↦ (
        y,
        insert_scored x ys,
        inserted ∙ rw behind refl,
        record {
          member = ground (arith, head.member);
          first = (ground (arith, behind), head.first);
          one_of = λ f h. head.one_of f h.1;
        },
      )
    ]

All-scored :
    (f : BlockHash → ℕ) (y : BlockHash × ℕ) (ps : List BlockHash)
    → All (λ z. comes_before y z ≡ true) (map (λ p. (p, f p)) ps)
    → (p : BlockHash) → contains ps p ≡ true
    → comes_before y (p, f p) ≡ true
All-scored f y [] h p m = cc
All-scored f y (q ∷ ps) h p m = elim (Bool-cases (q == p)) [
  | inl same ↦ subst (λ (x : ℕ). comes_before y (x, f x) ≡ true) ((==_iff q p).0 same) h.0
  | inr other ↦ All-scored f y ps h.1 p (ground arith)
]

hashes-scored :
    (f : BlockHash → ℕ) (ps : List BlockHash)
    → map (λ (x : BlockHash × ℕ). x.0) (map (λ p. (p, f p)) ps) ≡ ps
hashes-scored f [] = refl
hashes-scored f (p ∷ ps) = ap (λ l. p ∷ l) (hashes-scored f ps)

scores-scored :
    (f : BlockHash → ℕ) (ps : List BlockHash)
    → All (λ (z : BlockHash × ℕ). z.1 ≡ f z.0) (map (λ p. (p, f p)) ps)
scores-scored f [] = tt
scores-scored f (p ∷ ps) = (refl, scores-scored f ps)

pub sort_scored-IsBest :
    (f : BlockHash → ℕ) (p : BlockHash) (ps : List BlockHash)
    → (best : BlockHash) × (first_hash (sort_scored (map (λ q. (q, f q)) (p ∷ ps)))
        ≡ Outcome.ok best)
      × IsBest f (p ∷ ps) best
unfolding first_hash
sort_scored-IsBest f p ps =
    let (y, ys, sorted, head) = sort_scored-IsHead (p, f p) (map (λ q. (q, f q)) ps) in
    let shown = head.one_of f (scores-scored f (p ∷ ps)) in
    (
      y.0,
      ap first_hash sorted,
      record {
        candidate =
            ap (λ (l : List ℕ). contains l y.0) (sym (hashes-scored f (p ∷ ps))) ∙ head.member;
        first = λ q m.
            subst (λ (n : ℕ). comes_before (y.0, n) (q, f q) ≡ true) shown
              (All-scored f y (p ∷ ps) head.first q m);
      },
    )
