-- ===== src/Dag/Integrity/Checks.antt =====
-- The checks of `validate`, one by one.
use cytah_speed.Prelude.{
  ℕ, ◌≡◌, refl, ap, ◌∙◌, ==_iff, ◌==◌, Bool-cases, match_ind, subst, Bool, true, false, none, some,
  List, [], ◌∷◌, arith, ==_self, ltb, length, any, contains, All, Table, get, contains_key, inl,
  inr,
}
use mathlib.Core.List.{Memᴰ}
use cytah_speed.Core.Transaction.{Crypto}
use cytah_speed.Core.Block.{BlockHash, Block, calculate_hash, to_set}
use cytah_speed.Core.Block.Validity.{IsDistinct}
use cytah_speed.Storage.BlockStore.{StoreResult, all_hashed}
use cytah_speed.Dag.Order.{blocks_at}
use cytah_speed.Dag.Engine.{first_missing}
use cytah_speed.Dag.Integrity.{Validity, references_exist, tips_are_leaves}

-- What holds of every stored block holds of all that are read.
pub All-blocks_at {κ} :
    (P : Block → Type κ) (hs : List BlockHash) (store : Table Block)
    → ((h : BlockHash) (b : Block) → get h store ≡ some b → P b)
    → All P (blocks_at hs store)
unfolding blocks_at
All-blocks_at P [] store each = tt
All-blocks_at P (h ∷ hs) store each =
    let rest = All-blocks_at P hs store each in
    match_ind (All P) (get h store) (λ e. rest) (λ b e. (each h b e, rest))

pub Memᴰ-blocks_at :
    (hs : List BlockHash) (store : Table Block) (h : BlockHash) (b : Block)
    → contains hs h ≡ true
    → get h store ≡ some b
    → Memᴰ b (blocks_at hs store)
unfolding blocks_at
Memᴰ-blocks_at [] store h b m e = cc
Memᴰ-blocks_at (k ∷ hs) store h b m e = elim (Bool-cases (k == h)) [
  | inl same ↦
      let found : get k store ≡ some b = ap (λ (i : ℕ). get i store) ((==_iff k h).0 same) ∙ e in
      match_ind (Memᴰ b) (get k store) (λ absent. absurd (ground (arith, absent, found)))
        (λ c here. Memᴰ.head (ground (arith, here, found)))
  | inr other ↦
      let rest = Memᴰ-blocks_at hs store h b (ground (arith, m)) e in
      match_ind (Memᴰ b) (get k store) (λ absent. rest) (λ c here. Memᴰ.tail rest)
]

pub any-Memᴰ :
    (test : Block → Bool) (b : Block) (bs : List Block)
    → Memᴰ b bs
    → test b ≡ true
    → any test bs ≡ true
any-Memᴰ test b [] m t = elim m [ ]
any-Memᴰ test b (x ∷ bs) (Memᴰ.head e) t = ground (arith, ap test e, t)
any-Memᴰ test b (x ∷ bs) (Memᴰ.tail m) t = ground (arith, any-Memᴰ test b bs m t)

pub all_hashed-ok :
    (crypto : Crypto) (bs : List Block)
    → All (λ b. b.hash ≡ calculate_hash crypto b) bs
    → all_hashed crypto bs ≡ StoreResult.ok
unfolding all_hashed
all_hashed-ok crypto [] h = refl
all_hashed-ok crypto (b ∷ bs) h = ground (arith, h.0, all_hashed-ok crypto bs h.1)

pub nothing_missing :
    (store : Table Block) (ps : List BlockHash)
    → ((p : BlockHash) → contains ps p ≡ true → contains_key p store ≡ true)
    → first_missing store ps ≡ none
unfolding first_missing
nothing_missing store [] known = refl
nothing_missing store (p ∷ ps) known = ground (
  arith,
  known p (ground (arith, ==_self p)),
  nothing_missing store ps (λ q m. known q (ground (arith, m))),
)

pub references_exist-ok :
    (store : Table Block) (bs : List Block)
    → All (λ b. first_missing store b.header.parent_hashes ≡ none) bs
    → references_exist store bs ≡ Validity.ok
unfolding references_exist
references_exist-ok store [] h = refl
references_exist-ok store (b ∷ bs) h = ground (arith, h.0, references_exist-ok store bs h.1)

pub length-to_set_distinct : (xs : List ℕ) → IsDistinct xs → length (to_set xs) ≡ length xs
unfolding to_set
length-to_set_distinct [] d = refl
length-to_set_distinct (x ∷ xs) d = ground (arith, d.0, length-to_set_distinct xs d.1)

pub tips_are_leaves_one :
    (tip_set : List BlockHash) (blocks bs : List Block)
    → ltb 1 (length tip_set) ≡ false
    → tips_are_leaves tip_set blocks bs ≡ Validity.ok
unfolding tips_are_leaves
tips_are_leaves_one tip_set blocks [] few = refl
tips_are_leaves_one tip_set blocks (b ∷ bs) few =
    ground (arith, few, tips_are_leaves_one tip_set blocks bs few)

pub tips_are_leaves_two :
    (tip_set : List BlockHash) (blocks bs : List Block) (r : Block)
    → ltb 1 (length tip_set) ≡ true
    → Memᴰ r bs
    → r.header.parent_hashes ≡ []
    → any (λ c. contains c.header.parent_hashes r.hash) blocks ≡ true
    → tips_are_leaves tip_set blocks bs ≡ Validity.genesis_is_tip
unfolding tips_are_leaves
tips_are_leaves_two tip_set blocks (b ∷ bs) r many (Memᴰ.tail m) bottom named =
    ground (arith, tips_are_leaves_two tip_set blocks bs r many m bottom named)
tips_are_leaves_two tip_set blocks (b ∷ bs) r many (Memᴰ.head e) bottom named =
    let at_root : tips_are_leaves tip_set blocks (r ∷ bs) ≡ Validity.genesis_is_tip =
      ground (arith, many, bottom, named) in
    subst (λ x. tips_are_leaves tip_set blocks (x ∷ bs) ≡ Validity.genesis_is_tip) e at_root
tips_are_leaves_two tip_set blocks [] r many m bottom named = elim m [ ]
