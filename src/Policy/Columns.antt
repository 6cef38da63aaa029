-- ===== src/Policy/Columns.antt =====
-- `_resolve_column_order` of dummy_policy_server.py: the order in which the client unpacks a row.
use Prim.Native.Nat.{Ordering}
use Prim.Native.String.{compare}
use text.Mathlib.Text.{◌==◌ as str_eq}
use text.Mathlib.TextEquality.{eq_iff}
use text.Mathlib.TextPositions.{eq_refl}
use mathlib.Core.List.{Memᴰ}
use vla_mantis.Base.{
  ℕ, suc, ◌≡◌, refl, sym, subst, Bool, true, false, Option, none, some, List, [], ◌∷◌, String, map,
  if◌then◌else◌, and-eq_true, ◌≢◌, if-cases, inl, inr, get_or,
}
use vla_mantis.Base.Names.{member, Mem-member, or-eq_true}
use vla_mantis.Policy.Table.{same_names, action_names}

-- The order of the columns: that of the table, a permutation of it, or none that fits.
pub data Order : Type 0 where
  as_is : Order
  reordered : List ℕ → Order
  mismatch : Order

-- `s <= t` on strings.
abbrev pub str_le : String → String → Bool
str_le s t = elim (compare s t) [ Ordering.gt ↦ false | _ ↦ true ]

abbrev pub insert : String → List String → List String
insert x [] = x ∷ []
insert x (y ∷ ys) = let rest = insert x ys in if str_le x y then x ∷ y ∷ ys else y ∷ rest

-- `sorted(names)`
abbrev pub sorted : List String → List String
sorted [] = []
sorted (x ∷ xs) = insert x (sorted xs)

-- `names.index(n)`; the caller asks only for names that are there.
abbrev pub index : List String → String → ℕ
index [] n = 0
index (x ∷ xs) n = let later = index xs n in if str_eq x n then 0 else suc later

abbrev pub order_of : List String → Order
order_of client_names =
    if same_names client_names action_names
    then as_is
    else if same_names (sorted client_names) (sorted action_names)
    then reordered (map (index action_names) client_names)
    else mismatch

-- `_resolve_column_order`, from the names that the client advertises, if any.
unfoldable pub resolve_column_order : Option (List String) → Order
resolve_column_order none = as_is
resolve_column_order (some client_names) = order_of client_names

-- `row[order]`
abbrev pub pick {ℓ} : {A : Type ℓ} → A → List A → List ℕ → List A
pick d row order = map (λ i. get_or row i d) order

-- `rows[:, self._column_order]`
abbrev pub in_order {ℓ} : {A : Type ℓ} → A → Order → List A → List A
in_order d as_is row = row
in_order d (reordered order) row = pick d row order
in_order d mismatch row = row

-- What the client unpacks by its names, where the server does not refuse them.
abbrev pub Unpacked : List String → Order → Type 0
Unpacked client_names as_is = in_order "" as_is action_names ≡ client_names
Unpacked client_names (reordered order) = in_order "" (reordered order) action_names ≡ client_names
Unpacked client_names mismatch = sorted client_names ≢ sorted action_names

same_names-eq : (xs ys : List String) → same_names xs ys ≡ true → xs ≡ ys
same_names-eq [] [] h = refl
same_names-eq [] (y ∷ ys) h = absurd cc
same_names-eq (x ∷ xs) [] h = absurd cc
same_names-eq (x ∷ xs) (y ∷ ys) h =
    let (e, es) = and-eq_true (str_eq x y) (same_names xs ys) h in
    let p = (eq_iff x y).0 e in let q = same_names-eq xs ys es in cc

same_names_refl : (xs : List String) → same_names xs xs ≡ true
same_names_refl [] = refl
same_names_refl (x ∷ xs) = simp (eq_refl, same_names_refl xs)

-- Sorting keeps the members.
insert-Mem : (x y : String) (ys : List String) → Memᴰ x (y ∷ ys) → Memᴰ x (insert y ys)
insert-Mem x y [] m = m
insert-Mem x y (z ∷ zs) m =
    if-cases (λ (l : List String). Memᴰ x l) (str_le y z) (λ e. m)
      (λ e. later m (insert-Mem x y zs))
  where
    later :
        Memᴰ x (y ∷ z ∷ zs) → (Memᴰ x (y ∷ zs) → Memᴰ x (insert y zs)) → Memᴰ x (z ∷ insert y zs)
    later (Memᴰ.head e) f = Memᴰ.tail (f (Memᴰ.head e))
    later (Memᴰ.tail (Memᴰ.head e)) f = Memᴰ.head e
    later (Memᴰ.tail (Memᴰ.tail m')) f = Memᴰ.tail (f (Memᴰ.tail m'))

Mem-insert : (x y : String) (ys : List String) → Memᴰ x (insert y ys) → Memᴰ x (y ∷ ys)
Mem-insert x y [] = λ m. m
Mem-insert x y (z ∷ zs) =
    if-cases (λ (l : List String). Memᴰ x l → Memᴰ x (y ∷ z ∷ zs)) (str_le y z) (λ e m. m)
      (λ e m. later m (Mem-insert x y zs))
  where
    swap : Memᴰ x (y ∷ zs) → Memᴰ x (y ∷ z ∷ zs)
    swap (Memᴰ.head e) = Memᴰ.head e
    swap (Memᴰ.tail m) = Memᴰ.tail (Memᴰ.tail m)

    later :
        Memᴰ x (z ∷ insert y zs) → (Memᴰ x (insert y zs) → Memᴰ x (y ∷ zs)) → Memᴰ x (y ∷ z ∷ zs)
    later (Memᴰ.head e) f = Memᴰ.tail (Memᴰ.head e)
    later (Memᴰ.tail m) f = swap (f m)

Mem-sorted : (x : String) (xs : List String) → Memᴰ x xs → Memᴰ x (sorted xs)
Mem-sorted x [] m = m
Mem-sorted x (y ∷ ys) (Memᴰ.head e) = insert-Mem x y (sorted ys) (Memᴰ.head e)
Mem-sorted x (y ∷ ys) (Memᴰ.tail m) = insert-Mem x y (sorted ys) (Memᴰ.tail (Mem-sorted x ys m))

sorted-Mem : (x : String) (xs : List String) → Memᴰ x (sorted xs) → Memᴰ x xs
sorted-Mem x [] m = m
sorted-Mem x (y ∷ ys) m = below (Mem-insert x y (sorted ys) m) (sorted-Mem x ys)
  where
    below : Memᴰ x (y ∷ sorted ys) → (Memᴰ x (sorted ys) → Memᴰ x ys) → Memᴰ x (y ∷ ys)
    below (Memᴰ.head e) f = Memᴰ.head e
    below (Memᴰ.tail m') f = Memᴰ.tail (f m')

index-get :
    (names : List String) (n : String) → member n names ≡ true → get_or names (index names n) "" ≡ n
index-get [] n m = absurd cc
index-get (x ∷ xs) n m =
    if-cases (λ (i : ℕ). get_or (x ∷ xs) i "" ≡ n) (str_eq x n) (λ e. (eq_iff x n).0 e)
      (λ e. elim (or-eq_true _ (member n xs) m) [
        | inl same ↦ absurd cc
        | inr later ↦ index-get xs n later
      ])

pick-index :
    (names ns : List String)
    → ((n : String) → Memᴰ n ns → member n names ≡ true)
    → pick "" names (map (index names) ns) ≡ ns
pick-index names [] known = refl
pick-index names (n ∷ ns) known =
    let here = index-get names n (known n (Memᴰ.head refl)) in
    let later = pick-index names ns (λ k m. known k (Memᴰ.tail m)) in cc

sorted-known :
    (ns names : List String)
    → sorted ns ≡ sorted names
    → (n : String) → Memᴰ n ns
    → member n names ≡ true
sorted-known ns names e n m =
    Mem-member n names (sorted-Mem n names (subst (λ l. Memᴰ n l) e (Mem-sorted n ns m)))

-- Where the client's names are a permutation of the table's, what it unpacks by those names is what the
-- table has under them: a row in the resolved order has the client's names in the client's order; and
-- the server refuses only names that are no permutation of its own.
pub order_of-Unpacked :
    (client_names : List String) → Unpacked client_names (resolve_column_order (some client_names))
unfolding resolve_column_order
order_of-Unpacked ns =
    if-cases (λ (o : Order). Unpacked ns o) (same_names ns action_names)
      (λ e. sym (same_names-eq ns action_names e))
      (λ other.
        if-cases (λ (o : Order). Unpacked ns o) (same_names (sorted ns) (sorted action_names))
          (λ e.
            pick-index action_names ns
              (sorted-known ns action_names (same_names-eq (sorted ns) (sorted action_names) e)))
          (λ e same.
            let yes = same_names_refl (sorted action_names) in
            let no = subst (λ l. same_names l (sorted action_names) ≡ false) same e in cc))
