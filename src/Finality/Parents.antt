-- ===== src/Finality/Parents.antt =====
-- On a linked graph the virtual selected parents can be computed, which leaves heights and
-- scores alone.
use cytah_speed.Prelude.{
  ℕ, ◌≡◌, refl, sym, ap, subst, ◌∙◌, true, Option, none, some, List, [], ◌∷◌, arith, ==_self, ltb,
  contains, contains_key, length, Table, get, insert, unwrap_or, Option-cases, List-cases, inl, inr,
  if◌then◌else◌, if_ind,
}
use cytah_speed.Core.Block.{BlockHash, Block}
use cytah_speed.Dag.Engine.{get_blue_set}
use cytah_speed.Dag.Engine.Parents.{IsLinked, stored_some}
use cytah_speed.Dag.Queries.{get_block_parents}
use cytah_speed.Finality.{
  FinalityEngine, VirtualSelectedParent, Fallible, done, get_blue_score, best_blue, vsp_of,
  compute_single_vsp, compute_vsps,
}
use cytah_speed.Finality.Scores.{height_of_known}

-- Only caches differ.
pub record IsSameOrder (engine engine' : FinalityEngine) : Type 0 where
  pub scores : engine'.block_scores ≡ engine.block_scores
  pub limit : engine'.k ≡ engine.k

IsSameOrder-refl : (engine : FinalityEngine) → IsSameOrder engine engine
IsSameOrder-refl engine = record { scores = refl; limit = refl }

IsSameOrder-trans : (a b c : FinalityEngine) → IsSameOrder a b → IsSameOrder b c → IsSameOrder a c
IsSameOrder-trans a b c x y = record { scores = y.scores ∙ x.scores; limit = y.limit ∙ x.limit }

-- A step that succeeds and leaves the order alone.
unfoldable pub IsSafe : {A : Type 0} → FinalityEngine → Fallible A × FinalityEngine → Type 0
IsSafe {A} engine result = (a : A) × (result.0 ≡ done a) × IsSameOrder engine result.1

module _ (store : Table Block) where
  get_blue_score-IsSafe :
      (h : BlockHash) (engine : FinalityEngine)
      → contains_key h store ≡ true
      → IsSafe engine (get_blue_score store h engine)
  unfolding get_blue_score IsSafe get_blue_set
  get_blue_score-IsSafe h engine known = elim (Option-cases (get h engine.blue_scores)) [
    | inr (score, e) ↦ rw (e, get_blue_score) (score, refl, IsSameOrder-refl engine)
    | inl e ↦ elim (Option-cases (get_blue_set store h)) [
      | inl absent ↦ absurd (ground (arith, absent, known))
      | inr (blue_set, found) ↦
          rw (e, get_blue_score)
            (rw (found, get_blue_score)
              (length blue_set, refl, record { scores = refl; limit = refl }))
    ]
  ]

  best_blue_next :
      (p : BlockHash) (ps : List BlockHash) (best : Option BlockHash × ℕ) (engine : FinalityEngine)
      (score : ℕ)
      → (get_blue_score store p engine).0 ≡ done score
      → best_blue store (p ∷ ps) best engine
        ≡ best_blue store ps
            (if ltb best.1 score then (some p, score) else best)
            (get_blue_score store p engine).1
  unfolding best_blue
  best_blue_next p ps best engine score e = rw (e, best_blue) refl

  -- A parent found so far is stored.
  IsStored : Option BlockHash → Type 0
  IsStored o = (q : BlockHash) → o ≡ some q → contains_key q store ≡ true

  best_blue_total :
      (ps : List BlockHash) (best : Option BlockHash × ℕ) (engine : FinalityEngine)
      → ((p : BlockHash) → contains ps p ≡ true → contains_key p store ≡ true)
      → IsStored best.0
      → (best' : Option BlockHash × ℕ) × ((best_blue store ps best engine).0 ≡ done best')
        × IsSameOrder engine (best_blue store ps best engine).1
        × IsStored best'.0
  unfolding best_blue IsSafe IsStored
  best_blue_total [] best engine known stored = (best, refl, IsSameOrder-refl engine, stored)
  best_blue_total (p ∷ ps) best engine known stored =
      let here = known p (ground (arith, ==_self p)) in
      let (score, e, same) = get_blue_score-IsSafe p engine here in
      let engine' = (get_blue_score store p engine).1 in
      let better = if ltb best.1 score then (some p, score) else best in
      let stored' : (q : BlockHash) → better.0 ≡ some q → contains_key q store ≡ true =
        if_ind
          (λ (b : Option BlockHash × ℕ).
            (q : BlockHash) → b.0 ≡ some q → contains_key q store ≡ true)
          (ltb best.1 score)
          (λ _ q f.
            let is_p : p ≡ q = cc in subst (λ (x : ℕ). contains_key x store ≡ true) is_p here)
          (λ _. stored) in
      let (best', f, later, fit) =
        best_blue_total ps better engine' (λ q m. known q (ground (arith, m))) stored' in
      let next = best_blue_next p ps best engine score e in
      (
        best',
        ap (λ r. r.0) next ∙ f,
        subst (λ r. IsSameOrder engine r.1) (sym next)
            (IsSameOrder-trans engine engine' (best_blue store ps better engine').1 same later),
        fit,
      )

  vsp_of_total :
      (linked : IsLinked store) (first : BlockHash) (best : Option BlockHash × ℕ)
      (engine : FinalityEngine)
      → contains_key (unwrap_or best.0 first) store ≡ true
      → (vsp : VirtualSelectedParent) × (vsp_of store first best engine ≡ done vsp)
  unfolding vsp_of
  vsp_of_total linked first best engine known =
      let (height, e) = height_of_known store (unwrap_or best.0 first) linked known in
      rw (e, vsp_of)
        (
          record {
            block_hash = unwrap_or best.0 first;
            height = height;
            score = unwrap_or (get (unwrap_or best.0 first) engine.block_scores) 0;
            blue_score = best.1;
          },
          refl,
        )

  chosen_stored :
      (o : Option BlockHash) (first : BlockHash)
      → IsStored o
      → contains_key first store ≡ true
      → contains_key (unwrap_or o first) store ≡ true
  unfolding IsStored
  chosen_stored none first stored known = known
  chosen_stored (some q) first stored known = stored q refl

  single_first :
      (h : BlockHash) (engine : FinalityEngine)
      → get_block_parents store h ≡ some []
      → compute_single_vsp store h engine
        ≡ (done (record { block_hash = h; height = 0; score = 0; blue_score = 0 }), engine)
  unfolding compute_single_vsp
  single_first h engine e = rw (e, compute_single_vsp) refl

  single_later :
      (h p : BlockHash) (ps : List BlockHash) (engine : FinalityEngine)
      (best : Option BlockHash × ℕ)
      → get_block_parents store h ≡ some (p ∷ ps)
      → (best_blue store (p ∷ ps) (none, 0) engine).0 ≡ done best
      → compute_single_vsp store h engine ≡ (
        vsp_of store p best (best_blue store (p ∷ ps) (none, 0) engine).1,
        (best_blue store (p ∷ ps) (none, 0) engine).1,
      )
  unfolding compute_single_vsp
  single_later h p ps engine best e f = rw (e, compute_single_vsp) (rw (f, compute_single_vsp) refl)

  compute_single_vsp-IsSafe :
      (linked : IsLinked store) (h : BlockHash) (engine : FinalityEngine)
      → contains_key h store ≡ true
      → IsSafe engine (compute_single_vsp store h engine)
  unfolding get_block_parents IsSafe IsStored
  compute_single_vsp-IsSafe linked h engine known =
      let (b, found) = stored_some h store known in
      let listed : get_block_parents store h ≡ some b.header.parent_hashes =
        ground (arith, found) in
      elim (List-cases b.header.parent_hashes) [
        | inl none_named ↦
            let first = single_first h engine (listed ∙ ap some none_named) in
            (
              record { block_hash = h; height = 0; score = 0; blue_score = 0 },
              ap (λ r. r.0) first,
              subst (λ r. IsSameOrder engine r.1) (sym first) (IsSameOrder-refl engine),
            )
        | inr (p, ps, named) ↦
            let above : (q : BlockHash) → contains (p ∷ ps) q ≡ true → contains_key q store ≡ true =
              λ q m.
                let (c, stored, lower) =
                  (linked h b found).parents q (ap (λ (l : List ℕ). contains l q) named ∙ m) in
                ground (arith, stored) in
            let (best, e, same, fit) =
              best_blue_total (p ∷ ps) (none, 0) engine above (λ q f. cc) in
            let engine' = (best_blue store (p ∷ ps) (none, 0) engine).1 in
            let later = single_later h p ps engine best (listed ∙ ap some named) e in
            let (vsp, f) =
              vsp_of_total linked p best engine'
                (chosen_stored best.0 p fit (above p (ground (arith, ==_self p)))) in
            (vsp, ap (λ r. r.0) later ∙ f, subst (λ r. IsSameOrder engine r.1) (sym later) same)
      ]

  compute_vsps_next :
      (h : BlockHash) (hs : List BlockHash) (vsps : Table VirtualSelectedParent)
      (engine : FinalityEngine) (vsp : VirtualSelectedParent)
      → (compute_single_vsp store h engine).0 ≡ done vsp
      → compute_vsps store (h ∷ hs) vsps engine
        ≡ compute_vsps store hs (insert h vsp vsps) (compute_single_vsp store h engine).1
  unfolding compute_vsps
  compute_vsps_next h hs vsps engine vsp e = rw (e, compute_vsps) refl

  pub compute_vsps-IsSafe :
      (linked : IsLinked store) (hs : List BlockHash) (vsps : Table VirtualSelectedParent)
      (engine : FinalityEngine)
      → ((h : BlockHash) → contains hs h ≡ true → contains_key h store ≡ true)
      → IsSafe engine (compute_vsps store hs vsps engine)
  unfolding compute_vsps IsSafe
  compute_vsps-IsSafe linked [] vsps engine known = (vsps, refl, IsSameOrder-refl engine)
  compute_vsps-IsSafe linked (h ∷ hs) vsps engine known =
      let (vsp, e, same) =
        compute_single_vsp-IsSafe linked h engine (known h (ground (arith, ==_self h))) in
      let engine' = (compute_single_vsp store h engine).1 in
      let (vsps', f, later) =
        compute_vsps-IsSafe linked hs (insert h vsp vsps) engine'
          (λ x m. known x (ground (arith, m))) in
      let next = compute_vsps_next h hs vsps engine vsp e in
      (
        vsps',
        ap (λ r. r.0) next ∙ f,
        subst (λ r. IsSameOrder engine r.1) (sym next)
            (IsSameOrder-trans engine engine' (compute_vsps store hs (insert h vsp vsps) engine').1
              same later),
      )
