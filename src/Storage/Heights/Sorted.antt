-- ===== src/Storage/Heights/Sorted.antt =====
-- Sorting by height keeps the blocks and puts the lower ones first.
use cytah_speed.Prelude.{◌≤◌, List, [], ◌∷◌, arith, leb, All, if_ind}
use mathlib.Core.List.{Perm}
use mathlib.Core.List.Perm
use cytah_speed.Core.Block.{Block}
use cytah_speed.Storage.Heights.{put_by_height, sort_by_block_height}

-- Every block is at most as high as those behind it.
abbrev pub IsAscending : List Block → Type 0
IsAscending [] = Unit
IsAscending (b ∷ bs) = All (λ c. b.height ≤ c.height) bs × IsAscending bs

put_by_height-perm : (b : Block) (bs : List Block) → Perm (put_by_height b bs) (b ∷ bs)
unfolding put_by_height
put_by_height-perm b [] = Perm.rfl
put_by_height-perm b (c ∷ cs) =
    if_ind (λ (l : List Block). Perm l (b ∷ c ∷ cs)) _ (λ _. Perm.rfl)
      (λ _. Perm.trans (Perm.cons c (put_by_height-perm b cs)) (Perm.swap b c cs))

pub sort_by_block_height-perm : (bs : List Block) → Perm (sort_by_block_height bs) bs
unfolding sort_by_block_height
sort_by_block_height-perm [] = Perm.rfl
sort_by_block_height-perm (b ∷ bs) =
    Perm.trans (put_by_height-perm b (sort_by_block_height bs))
      (Perm.cons b (sort_by_block_height-perm bs))

All-higher :
    (b c : Block) (cs : List Block)
    → b.height ≤ c.height
    → All (λ d. c.height ≤ d.height) cs
    → All (λ d. b.height ≤ d.height) cs
All-higher b c [] le above = tt
All-higher b c (d ∷ ds) le above = (omega (arith, above.0), All-higher b c ds le above.1)

All-put_by_height :
    (a b : Block) (bs : List Block)
    → a.height ≤ b.height
    → All (λ d. a.height ≤ d.height) bs
    → All (λ d. a.height ≤ d.height) (put_by_height b bs)
unfolding put_by_height
All-put_by_height a b [] le above = (le, tt)
All-put_by_height a b (c ∷ cs) le above =
    if_ind (All (λ d. a.height ≤ d.height)) (leb b.height c.height) (λ _. (le, above))
      (λ _. (above.0, All-put_by_height a b cs le above.1))

put_by_height-IsAscending :
    (b : Block) (bs : List Block) → IsAscending bs → IsAscending (put_by_height b bs)
unfolding put_by_height
put_by_height-IsAscending b [] up = (tt, tt)
put_by_height-IsAscending b (c ∷ cs) up =
    if_ind IsAscending (leb b.height c.height)
      (λ low. let le : b.height ≤ c.height = ground arith in ((le, All-higher b c cs le up.0), up))
      (λ high. (All-put_by_height c b cs (ground arith) up.0, put_by_height-IsAscending b cs up.1))

pub sort_by_block_height-IsAscending : (bs : List Block) → IsAscending (sort_by_block_height bs)
unfolding sort_by_block_height
sort_by_block_height-IsAscending [] = tt
sort_by_block_height-IsAscending (b ∷ bs) =
    put_by_height-IsAscending b (sort_by_block_height bs) (sort_by_block_height-IsAscending bs)
