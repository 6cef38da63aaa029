-- ===== src/HomePlanner/Branches.antt =====
-- The trees of `_rrt` in home_planner.py: every node but the root was reached from its parent by a
-- clear edge, so every branch, and two joined branches, are certified paths.
use vla_mantis.Base.{
  ℕ, zero, suc, ◌+◌, ◌<◌, ◌≡◌, refl, inl, inr, none, some, List, [], ◌∷◌, ◌++◌, map, arith, length,
  get_or, length-append, length-map, ◌∙◌, ltb, Bool-cases,
}
use vla_mantis.Base.Num.{Num, gap}
use vla_mantis.HomePlanner.Rrt.{Tree, root_tree, extend, node, argmin_from, argmin, nearest}

module _ {ℓ} {A : Type ℓ} where
  pub get_or-append_left :
      (xs ys : List A) (k : ℕ) (d : A) → k < length xs → get_or (xs ++ ys) k d ≡ get_or xs k d
  get_or-append_left [] ys k d h = elim h [ ]
  get_or-append_left (x ∷ xs) ys zero d h = refl
  get_or-append_left (x ∷ xs) ys (suc k) d h = get_or-append_left xs ys k d (omega arith)

  pub get_or-append_length : (xs : List A) (y d : A) → get_or (xs ++ y ∷ []) (length xs) d ≡ y
  get_or-append_length [] y d = refl
  get_or-append_length (x ∷ xs) y d = get_or-append_length xs y d

module _ (num : Num) where
  argmin_from-lt :
      (best : num.F) (k i : ℕ) (xs : List num.F)
      → k < i
      → argmin_from num best k i xs < i + length xs
  unfolding argmin_from
  argmin_from-lt best k i [] h = omega arith
  argmin_from-lt best k i (x ∷ xs) h =
      ground (arith, argmin_from-lt x i (suc i) xs, argmin_from-lt best k (suc i) xs)

  argmin-lt : (xs : List num.F) → 0 < length xs → argmin num xs < length xs
  unfolding argmin
  argmin-lt [] h = elim h [ ]
  argmin-lt (x ∷ xs) h = omega (arith, argmin_from-lt x 0 1 xs)

  -- The nearest node is a node of the tree.
  pub nearest-lt :
      (t : Tree num) (q : List num.F) → 0 < length t.nodes → nearest num t q < length t.nodes
  unfolding nearest
  nearest-lt t q h =
      let n = length-map (λ p. gap num p q) t.nodes in
      omega (arith, n, argmin-lt (map (λ p. gap num p q) t.nodes))

  -- The tree is rooted at `r`, and each later node has an earlier parent, related to it by `E`.
  pub record Grown (E : List num.F → List num.F → Type 0) (r : List num.F) (t : Tree num)
      : Type 0 where
    pub sized : length t.nodes ≡ length t.parents
    pub inhabited : 0 < length t.nodes
    pub rooted : node num t 0 ≡ r
    pub orphan : get_or t.parents 0 none ≡ none
    pub linked :
        (k : ℕ)
        → 0 < k
        → k < length t.nodes
        → (j : ℕ) × (get_or t.parents k none ≡ some j) × (j < k) × E (node num t j) (node num t k)

  module _ (E : List num.F → List num.F → Type 0) where
    pub root_tree-Grown : (r : List num.F) → Grown E r (root_tree num r)
    unfolding root_tree
    root_tree-Grown r = record {
      sized = refl;
      inhabited = omega arith;
      rooted = refl;
      orphan = refl;
      linked = λ k lo hi. absurd (omega arith);
    }

    extend-linked :
        {r : List num.F} (t : Tree num) (q : List num.F) (i : ℕ)
        → Grown E r t
        → i < length t.nodes
        → E (node num t i) q
        → (k : ℕ) → 0 < k
        → k < length t.nodes + 1
        → (j : ℕ) × (get_or (t.parents ++ some i ∷ []) k none ≡ some j)
          × (j < k)
          × E (get_or (t.nodes ++ q ∷ []) j []) (get_or (t.nodes ++ q ∷ []) k [])
    extend-linked t q i g hi e k lo hi' = elim (Bool-cases (ltb k (length t.nodes))) [
      | inl old ↦
          let lt : k < length t.nodes = ground arith in
          let (j, pj, jk, ej) = g.linked k lo lt in
          let keep = get_or-append_left t.nodes (q ∷ []) in
          (
            j,
            get_or-append_left t.parents (some i ∷ []) k none (omega (arith, g.sized)) ∙ pj,
            jk,
            rw (keep j [] (omega arith), keep k [] lt) ej,
          )
      | inr new ↦
          let eq : k ≡ length t.nodes = ground arith in
          let eq' : k ≡ length t.parents = omega (arith, g.sized) in
          (
            i,
            rw eq' (get_or-append_length t.parents (some i) none),
            omega arith,
            rw (get_or-append_left t.nodes (q ∷ []) i [] hi)
                (rw eq (rw (get_or-append_length t.nodes q []) e)),
          )
    ]

    pub extend-Grown :
        {r : List num.F} (t : Tree num) (q : List num.F) (i : ℕ)
        → Grown E r t
        → i < length t.nodes
        → E (node num t i) q
        → Grown E r (extend num t q i)
    unfolding extend
    extend-Grown t q i g hi e = record {
      sized = omega (
        arith,
        g.sized,
        length-append {0} t.nodes (q ∷ []),
        length-append {0} t.parents (some i ∷ []),
      );
      inhabited = omega (arith, g.inhabited, length-append {0} t.nodes (q ∷ []));
      rooted = get_or-append_left t.nodes (q ∷ []) 0 [] g.inhabited ∙ g.rooted;
      orphan =
          get_or-append_left t.parents (some i ∷ []) 0 none (omega (arith, g.sized, g.inhabited))
          ∙ g.orphan;
      linked = λ k lo hi'.
          extend-linked t q i g hi e k lo (omega (arith, length-append {0} t.nodes (q ∷ [])));
    }
