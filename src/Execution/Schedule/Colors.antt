-- ===== src/Execution/Schedule/Colors.antt =====
-- The colouring ends, and gives a transaction another colour than its coloured neighbours.
use cytah_speed.Prelude.{
  ℕ, zero, suc, ◌+◌, ◌≤◌, ◌<◌, ◌≡◌, ◌≢◌, refl, sym, ap, ◌∙◌, true, false, Option, some, List, [],
  ◌∷◌, ◌==◌, leb, if◌then◌else◌, arith, unwrap_or, length, contains, get_elem?, set, Table, get,
  insert, get-insert, Option-cases, inl, inr, get_elem?-set_self, get_elem?-set_other, length-set,
}
use cytah_speed.Core.Transaction.{Hash}
use cytah_speed.Core.Block.Validity.{IsDistinct}
use cytah_speed.Dag.Index.Updates.{contains-set_insert}
use cytah_speed.Execution.Access.{neighbors}
use cytah_speed.Execution.Schedule.{
  number_from, color_at, forbidden_colors, first_free, pick_color, color_from,
}

-- How many elements are at least c.
count_from : ℕ → List ℕ → ℕ
count_from c [] = 0
count_from c (x ∷ xs) = (if leb c x then 1 else 0) + count_from c xs

count_from-le : (c : ℕ) (xs : List ℕ) → count_from (c + 1) xs ≤ count_from c xs
unfolding count_from
count_from-le c [] = omega arith
count_from-le c (x ∷ xs) = ground (arith, count_from-le c xs)

count_from-lt :
    (c : ℕ) (xs : List ℕ) → contains xs c ≡ true → count_from (c + 1) xs < count_from c xs
unfolding count_from
count_from-lt c [] h = cc
count_from-lt c (x ∷ xs) h = ground (arith, count_from-lt c xs, count_from-le c xs)

count_from-le-length : (c : ℕ) (xs : List ℕ) → count_from c xs ≤ length xs
unfolding count_from
count_from-le-length c [] = omega arith
count_from-le-length c (x ∷ xs) = ground (arith, count_from-le-length c xs)

first_free-free :
    (fuel : ℕ) (forbidden : List ℕ) (c : ℕ)
    → count_from c forbidden < fuel
    → contains forbidden (first_free fuel forbidden c) ≡ false
unfolding first_free
first_free-free zero forbidden c h = elim h [ ]
first_free-free (suc fuel) forbidden c h =
    ground (arith, count_from-lt c forbidden, first_free-free fuel forbidden (c + 1))

contains-forbidden_colors :
    (index : Table ℕ) (colors : List ℕ) (hs : List Hash) (h : Hash) (pos : ℕ)
    → contains hs h ≡ true
    → get h index ≡ some pos
    → contains (forbidden_colors index colors hs) (color_at pos colors) ≡ true
unfolding forbidden_colors
contains-forbidden_colors index colors [] h pos listed found = cc
contains-forbidden_colors index colors (x ∷ hs) h pos listed found =
    let below = contains-forbidden_colors index colors hs h pos in
    elim (Option-cases (get x index)) [
      | inl unknown ↦ ground (arith, unknown, below)
      | inr (p, known) ↦ ground (
        arith,
        known,
        below,
        contains-set_insert (color_at p colors) (forbidden_colors index colors hs)
            (color_at pos colors),
      )
    ]

-- The colour picked is not that of a neighbour whose position is known.
pick_color-ne :
    (edges : Table (List Hash)) (index : Table ℕ) (colors : List ℕ) (h x : Hash) (pos : ℕ)
    → contains (neighbors h edges) x ≡ true
    → get x index ≡ some pos
    → pick_color edges index colors h ≢ color_at pos colors
unfolding pick_color
pick_color-ne edges index colors h x pos adjacent found e =
    let forbidden = forbidden_colors index colors (neighbors h edges) in
    let free =
      first_free-free (suc (length forbidden)) forbidden 0
        (omega (arith, count_from-le-length 0 forbidden)) in
    let taken = contains-forbidden_colors index colors (neighbors h edges) x pos adjacent found in
    cc

color_from-earlier :
    (edges : Table (List Hash)) (index : Table ℕ) (i k : ℕ) (hs : List Hash) (colors : List ℕ)
    → k < i
    → color_at k (color_from edges index i hs colors) ≡ color_at k colors
unfolding color_from
color_from-earlier edges index i k [] colors lt = refl
color_from-earlier edges index i k (h ∷ hs) colors lt =
    let color = pick_color edges index colors h in
    color_from-earlier edges index (i + 1) k hs (set colors i color) (omega arith)
    ∙ ap (λ (o : Option ℕ). unwrap_or o 0) (get_elem?-set_other colors i k color (λ e. omega arith))

pub length-color_from :
    (edges : Table (List Hash)) (index : Table ℕ) (i : ℕ) (hs : List Hash) (colors : List ℕ)
    → length (color_from edges index i hs colors) ≡ length colors
unfolding color_from
length-color_from edges index i [] colors = refl
length-color_from edges index i (h ∷ hs) colors =
    let color = pick_color edges index colors h in
    length-color_from edges index (i + 1) hs (set colors i color) ∙ length-set colors i color

-- The transaction at position i + j ends with another colour than an adjacent earlier one.
pub color_from-ne :
    (edges : Table (List Hash)) (index : Table ℕ) (i j k : ℕ) (hs : List Hash) (colors : List ℕ)
    (h x : Hash)
    → i + length hs ≤ length colors
    → get_elem? hs j ≡ some h
    → contains (neighbors h edges) x ≡ true
    → get x index ≡ some k
    → k < i + j
    → color_at (i + j) (color_from edges index i hs colors)
      ≢ color_at k (color_from edges index i hs colors)
unfolding color_from
color_from-ne edges index i j k [] colors h x room at_j adjacent found lt = cc
color_from-ne edges index i zero k (y ∷ hs) colors h x room at_j adjacent found lt =
    let same : y ≡ h = ground arith in
    let color = pick_color edges index colors y in
    let here : i + zero ≡ i = omega arith in
    let mine : color_at i (color_from edges index (i + 1) hs (set colors i color)) ≡ color =
      color_from-earlier edges index (i + 1) i hs (set colors i color) (omega arith)
      ∙ ap (λ (o : Option ℕ). unwrap_or o 0) (get_elem?-set_self colors i color (omega arith)) in
    let theirs : color_at k (color_from edges index (i + 1) hs (set colors i color))
        ≡ color_at k colors =
      color_from-earlier edges index (i + 1) k hs (set colors i color) (omega arith)
      ∙ ap (λ (o : Option ℕ). unwrap_or o 0)
          (get_elem?-set_other colors i k color (λ e. omega arith)) in
    rw here
      (λ e. pick_color-ne edges index colors y x k (rw same adjacent) found (sym mine ∙ e ∙ theirs))
color_from-ne edges index i (suc j) k (y ∷ hs) colors h x room at_j adjacent found lt =
    let color = pick_color edges index colors y in
    let next : i + suc j ≡ (i + 1) + j = omega arith in
    rw next (
      color_from-ne edges index (i + 1) j k hs (set colors i color) h x
        (omega (arith, length-set colors i color)) at_j adjacent found (omega arith))

number_from-absent :
    (i : ℕ) (hs : List Hash) (index : Table ℕ) (h : Hash)
    → contains hs h ≡ false
    → get h (number_from i hs index) ≡ get h index
unfolding number_from
number_from-absent i [] index h absent = refl
number_from-absent i (x ∷ hs) index h absent =
    let rest : contains hs h ≡ false = ground arith in
    let other : (x == h) ≡ false = ground arith in
    number_from-absent (i + 1) hs (insert x i index) h rest ∙ ground (arith, get-insert h x i index)

-- Of distinct ids each is found at its position.
pub get-number_from :
    (i j : ℕ) (hs : List Hash) (index : Table ℕ) (h : Hash)
    → IsDistinct hs
    → get_elem? hs j ≡ some h
    → get h (number_from i hs index) ≡ some (i + j)
unfolding number_from
get-number_from i j [] index h distinct at_j = cc
get-number_from i zero (x ∷ hs) index h distinct at_j =
    let same : x ≡ h = ground arith in
    let here : i + zero ≡ i = omega arith in
    rw here (
      number_from-absent (i + 1) hs (insert x i index) h (rw same at (distinct.0))
      ∙ ground (arith, get-insert h x i index))
get-number_from i (suc j) (x ∷ hs) index h distinct at_j =
    let next : i + suc j ≡ (i + 1) + j = omega arith in
    rw next (get-number_from (i + 1) j hs (insert x i index) h distinct.1 at_j)
