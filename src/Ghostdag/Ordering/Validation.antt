-- ===== src/Ghostdag/Ordering/Validation.antt =====
-- What the validation of an ordering decides.
use cytah_speed.Prelude.{
  ℕ, suc, ◌+◌, ◌≡◌, ◌↔◌, refl, ap, sym, subst, ◌∙◌, Bool, true, false, none, some, List, [], ◌∷◌,
  ◌++◌, arith, ==_iff, ==_self, ltb, contains, contains_key, length, length-append, keys, Table,
  Bool-cases, inl, inr, IsKeyed,
}
use mathlib.Core.List.{append_assoc, append-nil}
use cytah_speed.Core.Block.{BlockHash, Block}
use cytah_speed.Core.Block.Validity.{IsDistinct}
use cytah_speed.Dag.Index.{parents_of, set_insert}
use cytah_speed.Dag.Engine.{BlockDag}
use cytah_speed.Dag.Worklist.Found.{missing}
use cytah_speed.Dag.Order.Waiting.{
  missing_zero, missing_zero_all, IsOrderedAfter, IsDistinct-snoc, IsDistinct-middle,
}
use cytah_speed.Dag.Order.Sorting.{contains-keys, keys-IsDistinct}
use cytah_speed.Dag.Order.Pigeonhole.{missing-IsDistinct}
use cytah_speed.Dag.Order.Complete.{IsTopological, length-keys}
use cytah_speed.Ghostdag.Engine.{GhostdagEngine}
use cytah_speed.Ghostdag.Ordering.{position, check_placed, validate_from, validate_ordering}

-- Whether a hash stands in front of an index.
abbrev is_before : List BlockHash → ℕ → BlockHash → Bool
is_before ordering index p = elim (position ordering p) [ none ↦ false | some j ↦ ltb j index ]

is_before-append :
    (xs ys : List BlockHash) (p : BlockHash) → is_before (xs ++ ys) (length xs) p ≡ contains xs p
unfolding position
is_before-append [] ys p = ground arith
is_before-append (x ∷ xs) ys p = ground (arith, is_before-append xs ys p)

-- The parents of a block pass exactly if all stand in front of it.
check_placed-none :
    (seen rest : List BlockHash) (h : BlockHash) (ps : List BlockHash)
    → (check_placed (seen ++ rest) (length seen) h ps ≡ none → missing ps seen ≡ 0)
      × (missing ps seen ≡ 0 → check_placed (seen ++ rest) (length seen) h ps ≡ none)
unfolding check_placed missing
check_placed-none seen rest h [] = (λ e. refl, λ e. refl)
check_placed-none seen rest h (p ∷ ps) =
    let (to, from) = check_placed-none seen rest h ps in
    (
      λ e. ground (arith, to, is_before-append seen rest p),
      λ e. ground (arith, from, is_before-append seen rest p),
    )

-- What the loop asks of the rest of an ordering.
abbrev IsValidFrom : Table Block → List BlockHash → List BlockHash → Type 0
IsValidFrom store seen [] = length seen ≡ length store
IsValidFrom store seen (h ∷ hs) =
    (contains_key h store ≡ true)
    × (contains seen h ≡ false)
    × (missing (parents_of store h) seen ≡ 0)
    × IsValidFrom store (seen ++ h ∷ []) hs

pub set_insert_new :
    (seen : List BlockHash) (h : BlockHash)
    → contains seen h ≡ false
    → set_insert h seen ≡ seen ++ h ∷ []
unfolding set_insert
set_insert_new seen h new = rw (new, set_insert) refl

validate_from-none :
    (store : Table Block) (seen hs : List BlockHash)
    → (validate_from store (seen ++ hs) (length seen) hs seen ≡ none → IsValidFrom store seen hs)
      × (IsValidFrom store seen hs → validate_from store (seen ++ hs) (length seen) hs seen ≡ none)
unfolding validate_from
validate_from-none store seen [] = (
  λ e. ground (arith, ==_iff (length seen) (length store)),
  λ e. ground (arith, ==_iff (length seen) (length store)),
)
validate_from-none store seen (h ∷ hs) =
    let (to, from) =
      subst
        (λ (l : List ℕ).
          (validate_from store l (length (seen ++ h ∷ [])) hs (seen ++ h ∷ []) ≡ none
            → IsValidFrom store (seen ++ h ∷ []) hs)
          × (IsValidFrom store (seen ++ h ∷ []) hs
              → validate_from store l (length (seen ++ h ∷ [])) hs (seen ++ h ∷ []) ≡ none))
        (append_assoc seen (h ∷ []) hs) (validate_from-none store (seen ++ h ∷ []) hs) in
    let (pass, placed) = check_placed-none seen (h ∷ hs) h (parents_of store h) in
    let grown : length (seen ++ h ∷ []) ≡ suc (length seen) =
      omega (arith, length-append seen (h ∷ [])) in
    let same : contains seen h ≡ false
        → validate_from store (seen ++ h ∷ hs) (suc (length seen)) hs (set_insert h seen)
          ≡ validate_from store (seen ++ h ∷ hs) (length (seen ++ h ∷ [])) hs (seen ++ h ∷ []) =
      λ new i.
        validate_from store (seen ++ h ∷ hs) (sym grown i) hs (set_insert_new seen h new i) in
    (λ e. ground (arith, pass, to, same), λ e. ground (arith, placed, from, same))

-- What a valid rest of an ordering is.
record IsRest (store : Table Block) (seen hs : List BlockHash) : Type 0 where
  distinct : IsDistinct (seen ++ hs)
  stored : (v : BlockHash) → contains hs v ≡ true → contains_key v store ≡ true
  ordered : IsOrderedAfter store seen hs
  counted : length (seen ++ hs) ≡ length store

IsValidFrom-IsRest :
    (store : Table Block) (seen hs : List BlockHash)
    → IsDistinct seen
    → IsValidFrom store seen hs
    → IsRest store seen hs
IsValidFrom-IsRest store seen [] d v = record {
  distinct = subst IsDistinct (sym (append-nil seen)) d;
  stored = λ x m. cc;
  ordered = tt;
  counted = ap length (append-nil seen) ∙ v;
}
IsValidFrom-IsRest store seen (h ∷ hs) d (known, new, placed, later) =
    let rest = IsValidFrom-IsRest store (seen ++ h ∷ []) hs (IsDistinct-snoc seen h d new) later in
    record {
      distinct = subst IsDistinct (append_assoc seen (h ∷ []) hs) rest.distinct;
      stored = λ x m. ground (arith, rest.stored x, known, ==_iff h x);
      ordered = (placed, rest.ordered);
      counted = ap length (sym (append_assoc seen (h ∷ []) hs)) ∙ rest.counted;
    }

IsRest-IsValidFrom :
    (store : Table Block) (seen hs : List BlockHash)
    → IsRest store seen hs
    → IsValidFrom store seen hs
IsRest-IsValidFrom store seen [] r = ap length (sym (append-nil seen)) ∙ r.counted
IsRest-IsValidFrom store seen (h ∷ hs) r = (
  r.stored h (ground (arith, ==_self h)),
  (IsDistinct-middle seen hs h r.distinct).0,
  r.ordered.0,
  IsRest-IsValidFrom store (seen ++ h ∷ []) hs (record {
    distinct = subst IsDistinct (sym (append_assoc seen (h ∷ []) hs)) r.distinct;
    stored = λ x m. r.stored x (ground (arith, m));
    ordered = r.ordered.1;
    counted = ap length (append_assoc seen (h ∷ []) hs) ∙ r.counted;
  }),
)

module _ (store : Table Block) (keyed : IsKeyed store) (order : List BlockHash) where
  -- The number of blocks that the order misses.
  left_out :
      IsDistinct order
      → ((v : BlockHash) → contains order v ≡ true → contains_key v store ≡ true)
      → missing (keys store) order + length order ≡ length store
  left_out d stored =
      missing-IsDistinct (keys store) order (keys-IsDistinct store keyed) d
        (λ v m. contains-keys store v ∙ stored v m)
      ∙ length-keys store

  IsRest-IsTopological : IsRest store [] order → IsTopological store order
  IsRest-IsTopological r = record {
    distinct = r.distinct;
    complete = λ h. elim (Bool-cases (contains_key h store)) [
      | inl known ↦
          missing_zero_all (keys store) order h
            (omega (arith, left_out r.distinct r.stored, r.counted)) (contains-keys store h ∙ known)
          ∙ sym known
      | inr unknown ↦ ground (arith, r.stored h, unknown)
    ];
    ordered = r.ordered;
  }

  IsTopological-IsRest : IsTopological store order → IsRest store [] order
  IsTopological-IsRest t =
      let stored = λ (v : BlockHash) (m : contains order v ≡ true). sym (t.complete v) ∙ m in
      record {
        distinct = t.distinct;
        stored = stored;
        ordered = t.ordered;
        counted = omega (
          arith,
          left_out t.distinct stored,
          missing_zero (keys store) order (λ v m. t.complete v ∙ sym (contains-keys store v) ∙ m),
        );
      }

-- If no hash is stored twice in the attached graph, `validate_ordering` accepts an ordering
-- exactly if it lists the stored blocks, each once, with all parents in front of their children.
pub validate_ordering_iff :
    (engine : GhostdagEngine) (dag : BlockDag) (order : List BlockHash)
    → engine.dag ≡ some dag
    → IsKeyed dag.store
    → (validate_ordering engine order ≡ none) ↔ IsTopological dag.store order
unfolding validate_ordering
validate_ordering_iff engine dag order attached keyed =
    let opened : validate_ordering engine order ≡ validate_from dag.store order 0 order [] =
      ground (arith, attached) in
    let (to, from) = validate_from-none dag.store [] order in
    (
      λ e.
          IsRest-IsTopological dag.store keyed order
            (IsValidFrom-IsRest dag.store [] order tt (to (sym opened ∙ e))),
      λ t.
          opened
          ∙ from (
              IsRest-IsValidFrom dag.store [] order (IsTopological-IsRest dag.store keyed order t)),
    )

-- Such an ordering has as many elements as there are blocks.
pub length-IsTopological :
    (store : Table Block) (order : List BlockHash)
    → IsKeyed store
    → IsTopological store order
    → length order ≡ length store
length-IsTopological store order keyed t = (IsTopological-IsRest store keyed order t).counted
