-- ===== src/Dag/Index/Search.antt =====
-- The searches of the index find exactly the ancestors and the descendants.
use cytah_speed.Prelude.{◌≡◌, ap, sym, ◌∙◌, true, some, List, [], ◌∷◌, arith, contains, Table, get}
use cytah_speed.Core.Block.{BlockHash, Block}
use cytah_speed.Dag.Worklist.{Reaches}
use cytah_speed.Dag.Worklist.Found.{Within, contains-append, search_decides}
use cytah_speed.Dag.Index.{
  get_children, parents_of, all_parents, all_children, get_all_ancestors, get_all_descendants,
  is_ancestor,
}

-- `Ancestor store h a`: a chain of parent references leads from h to a.
abbrev pub Ancestor : Table Block → BlockHash → BlockHash → Type 0
Ancestor store h a = Reaches (parents_of store) h a

abbrev pub Descendant : Table (List BlockHash) → BlockHash → BlockHash → Type 0
Descendant m h d = Reaches (λ p. get_children p m) h d

pub parents_of-Within :
    (store : Table Block) (h : BlockHash) → Within (parents_of store h) (all_parents store)
unfolding parents_of all_parents get
parents_of-Within [] h v e = cc
parents_of-Within ((k, b) ∷ m) h v e =
    ground
      (arith, parents_of-Within m h v, contains-append b.header.parent_hashes (all_parents m) v)

pub children-Within :
    (m : Table (List BlockHash)) (h : BlockHash) → Within (get_children h m) (all_children m)
unfolding get_children all_children get
children-Within [] h v e = cc
children-Within ((k, cs) ∷ m) h v e =
    ground (arith, children-Within m h v, contains-append cs (all_children m) v)

-- For every store and hash `get_all_ancestors` returns: its fuel is enough, also on a store with
-- cycles or missing parents. A hash is in the result exactly if a chain of one or more parent
-- references leads to it.
pub get_all_ancestors_decides :
    (store : Table Block) (h : BlockHash)
    → (result : List BlockHash) × (get_all_ancestors store h ≡ some result)
      × ((a : BlockHash)
          → (contains result a ≡ true → Ancestor store h a)
            × (Ancestor store h a → contains result a ≡ true))
unfolding get_all_ancestors
get_all_ancestors_decides store h =
    search_decides (parents_of store) h (all_parents store) (parents_of-Within store)

pub get_all_ancestors_sound :
    (store : Table Block) (h a : BlockHash) (result : List BlockHash)
    → get_all_ancestors store h ≡ some result
    → contains result a ≡ true
    → Ancestor store h a
get_all_ancestors_sound store h a result returned m =
    let (found, e, decides) = get_all_ancestors_decides store h in
    let same : result ≡ found = cc in
    (decides a).0 (ap (λ (l : List BlockHash). contains l a) (sym same) ∙ m)

-- For every table of children and hash `get_all_descendants` returns, and a hash is in the
-- result exactly if a chain of one or more references to children leads to it.
pub get_all_descendants_decides :
    (m : Table (List BlockHash)) (h : BlockHash)
    → (result : List BlockHash) × (get_all_descendants m h ≡ some result)
      × ((d : BlockHash)
          → (contains result d ≡ true → Descendant m h d)
            × (Descendant m h d → contains result d ≡ true))
unfolding get_all_descendants
get_all_descendants_decides m h =
    search_decides (λ p. get_children p m) h (all_children m) (children-Within m)

-- `is_ancestor` answers true exactly if a chain of parent references leads from the block to
-- the ancestor.
pub is_ancestor_decides :
    (store : Table Block) (a h : BlockHash)
    → (is_ancestor store a h ≡ true → Ancestor store h a)
      × (Ancestor store h a → is_ancestor store a h ≡ true)
unfolding is_ancestor
is_ancestor_decides store a h =
    let (result, e, decides) = get_all_ancestors_decides store h in rw e (decides a)
