-- ===== src/HomePlanner/Chains.antt =====
-- `chain` and the joined path of `_rrt` in home_planner.py are certified.
use vla_mantis.Base.{
  ℕ, zero, suc, ◌-◌, ◌<◌, ◌≡◌, ◌≢◌, refl, sym, Bool, true, false, none, some, List, [], ◌∷◌, ◌++◌,
  reverse, arith, last_or, length, drop, get_or, last_or-append, length-append, append_assoc,
  append-nil, ◌∙◌, ap, if◌then◌else◌,
}
use mathlib.Core.List.{reverse-cons, reverse-append, reverse-reverse}
use vla_mantis.Base.Num.{Num, gap, gap-length}
use vla_mantis.HomePlanner.Edge.{HomePlanner}
use vla_mantis.HomePlanner.Rrt.{Tree, extend, node, chain_from, chain, join}
use vla_mantis.HomePlanner.Certified.{
  Segment, Sampled, Certified-length, forward, forward_to, backward_from, Certified, Certified-snoc,
}
use vla_mantis.HomePlanner.Polyline.{
  Certified-concat, Certified-reverse, last_or-reverse, last_or-concat,
}
use vla_mantis.HomePlanner.Branches.{Grown, get_or-append_left, get_or-append_length}

snoc_ne {ℓ} : {A : Type ℓ} (xs ys : List A) (a : A) → xs ++ (ys ++ a ∷ []) ≢ []
snoc_ne [] [] a e = cc
snoc_ne [] (y ∷ ys) a e = cc
snoc_ne (x ∷ xs) ys a e = cc

append-reverse_ne {ℓ} :
    {A : Type ℓ} (xs : List A) (a : A) (ys : List A) → xs ++ reverse (a ∷ ys) ≢ []
append-reverse_ne xs a ys e =
    snoc_ne xs (reverse ys) a (ap (λ l. xs ++ l) (sym (reverse-cons a ys)) ∙ e)

module _ (num : Num) (hp : HomePlanner num) (scale floor : num.F) where
  -- A tree whose edges were accepted by `ok`.
  abbrev pub Checked : List num.F → Tree num → Type 0
  Checked = Grown num (Sampled num hp scale floor)

  -- A path from `a` to `b`.
  pub record Route (a b : List num.F) (rest : List (List num.F)) : Type 0 where
    pub certified : Certified num hp scale floor a rest
    pub ends : last_or a rest ≡ b

  chain_from-some :
      (t : Tree num) (fuel k j : ℕ) (out : List (List num.F))
      → get_or t.parents k none ≡ some j
      → chain_from num (suc fuel) t k out ≡ chain_from num fuel t j (node num t k ∷ out)
  unfolding chain_from
  chain_from-some t fuel k j out e = rw (e, chain_from)

  chain_from-Route :
      {r : List num.F} (t : Tree num)
      → Checked r t
      → (fuel k : ℕ) → k < fuel
      → k < length t.nodes
      → (out : List (List num.F))
      → (rest : List (List num.F)) × (chain_from num fuel t k out ≡ r ∷ (rest ++ out))
        × Route r (node num t k) rest
        × (length rest ≡ 0 → k ≡ 0)
  unfolding chain_from
  chain_from-Route t g zero k h hk out = elim h [ ]
  chain_from-Route t g (suc fuel) zero h hk out = (
    [],
    rw (g.orphan, chain_from) (ap (λ x. x ∷ out) g.rooted),
    record { certified = tt; ends = sym g.rooted },
    λ e. refl,
  )
  chain_from-Route {r} t g (suc fuel) (suc k) h hk out =
      let (j, pj, jk, ej) = g.linked (suc k) (omega arith) hk in
      let q = node num t (suc k) in
      let (rest, e, route, ne) =
        chain_from-Route t g fuel j (omega arith) (omega arith) (q ∷ out) in
      (
        rest ++ q ∷ [],
        rw (append_assoc rest (q ∷ []) out, pj, chain_from) e,
        record {
          certified =
              Certified-snoc num hp scale floor r q rest route.certified
                (rw route.ends (forward ej));
          ends = last_or-append r q rest [];
        },
        λ e'. absurd (omega (arith, length-append {0} rest (q ∷ []))),
      )

  -- The branch to node `k` starts at the root, is certified, ends at the node, and has a segment
  -- unless the node is the root.
  pub chain-Route :
      {r : List num.F} (t : Tree num) (k : ℕ)
      → Checked r t
      → k < length t.nodes
      → (rest : List (List num.F)) × (chain num t k ≡ r ∷ rest)
        × Route r (node num t k) rest
        × (length rest ≡ 0 → k ≡ 0)
  unfolding chain
  chain-Route {r} t k g h =
      let (rest, e, route, ne) = chain_from-Route t g (length t.nodes) k h h [] in
      (rest, e ∙ ap (λ l. r ∷ l) (append-nil rest), route, ne)

  -- Every node of a checked tree has as many joints as its root.
  pub node-length :
      {r : List num.F} (t : Tree num) (k : ℕ)
      → Checked r t
      → k < length t.nodes
      → length (node num t k) ≡ length r
  node-length {r} t k g h =
      let (rest, e, route, ne) = chain-Route t k g h in
      ap length (sym route.ends) ∙ Certified-length num hp scale floor r rest route.certified

  -- Two branches that met: `xs` from `a`, and `ys` from `b`, whose end is next to the end of `xs`.
  pub joined-Route :
      {a b x y : List num.F} {xs ys : List (List num.F)}
      → Route a x xs
      → Route b y ys
      → Segment num hp scale floor x y
      → Route a b (xs ++ reverse (b ∷ ys))
  joined-Route {a} {b} {xs} {ys} p q s = record {
    certified = Certified-concat num hp scale floor a xs (reverse (b ∷ ys)) p.certified (
        Certified-reverse num hp scale floor (last_or a xs) b ys (rw (p.ends, q.ends) s)
          q.certified);
    ends = last_or-concat a xs (reverse (b ∷ ys)) ∙ last_or-reverse (last_or a xs) b ys;
  }

  -- `[::-1][1:]` of a path that ends in `q` is the rest of it, reversed.
  drop-reverse_snoc :
      (xs : List (List num.F)) (q : List num.F) → drop 1 (reverse (xs ++ q ∷ [])) ≡ reverse xs
  drop-reverse_snoc xs q = rw (reverse-append xs (q ∷ [])) refl

  -- The second tree before and after the node `qs` that met `qn`, the last node of the first tree.
  module _ (ra rb qs qn : List num.F) (A B : Tree num) (k : ℕ) (ga : Checked ra A)
      (gb : Checked rb B) (gb' : Checked rb (extend num B qs k)) (hk : k < length B.nodes)
      (met : node num A (length A.nodes - 1) ≡ qn)
      (clear : Sampled num hp scale floor (node num B k) qs)
      (close : num.lt (gap num qs qn) (num.lit 1 9) ≡ true) where
    -- The branch of the second tree to `qs` is the branch to its parent, with `qs` behind it.
    met_branch :
        (ys : List (List num.F)) × (chain num (extend num B qs k) (length B.nodes)
          ≡ rb ∷ (ys ++ qs ∷ []))
        × Route rb (node num B k) ys
    unfolding chain extend
    met_branch =
        let t = extend num B qs k in
        let l = length B.nodes in
        let size : length t.nodes ≡ suc l = omega (arith, length-append {0} B.nodes (qs ∷ [])) in
        let parent : get_or t.parents l none ≡ some k =
          rw gb.sized (get_or-append_length B.parents (some k) none) in
        let last : node num t l ≡ qs = get_or-append_length B.nodes qs [] in
        let same : node num t k ≡ node num B k = get_or-append_left B.nodes (qs ∷ []) k [] hk in
        let (ys, e, route, _) = chain_from-Route t gb' l k hk (omega (arith, size)) (qs ∷ []) in
        (
          ys,
          ap (λ n. chain_from num n t l []) size
              ∙ chain_from-some t l l k [] parent
              ∙ ap (λ q. chain_from num l t k (q ∷ [])) last
              ∙ e,
          record { certified = route.certified; ends = route.ends ∙ same },
        )

    -- The glued path is certified from the arm to home, whichever tree is which.
    pub join-Route :
        (swapped : Bool)
        → (rest : List (List num.F)) × (join num A (extend num B qs k) (length B.nodes) swapped
            ≡ (if swapped then rb else ra) ∷ rest)
          × Route (if swapped then rb else ra) (if swapped then ra else rb) rest
          × (rest ≢ [])
    unfolding join
    join-Route false =
        let (xs, ea, pa, _) = chain-Route A (length A.nodes - 1) ga (omega (arith, ga.inhabited)) in
        let (ys, eb, pb) = met_branch in
        (
          xs ++ reverse (rb ∷ ys),
          rw (ea, eb) (ap (λ l. (ra ∷ xs) ++ l) (drop-reverse_snoc (rb ∷ ys) qs)),
          joined-Route (rw met at pa) pb
              (backward_from qs (gap-length num qs qn _ close) close clear),
          append-reverse_ne xs rb ys,
        )
    join-Route true =
        let (xs, ea, pa, _) = chain-Route A (length A.nodes - 1) ga (omega (arith, ga.inhabited)) in
        let (ys, eb, pb) = met_branch in
        (
          ys ++ reverse (ra ∷ xs),
          rw (ea, eb)
              (ap (λ l. reverse l ++ reverse (ra ∷ xs)) (drop-reverse_snoc (rb ∷ ys) qs)
                ∙ ap (λ l. l ++ reverse (ra ∷ xs)) (reverse-reverse (rb ∷ ys))),
          joined-Route pb (rw met at pa) (forward_to qs (gap-length num qs qn _ close) close clear),
          append-reverse_ne ys ra xs,
        )
