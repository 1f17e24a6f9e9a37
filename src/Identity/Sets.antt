-- ===== src/Identity/Sets.antt =====
-- collector/identity/resolve.ts, lines 29 to 60: `DisjointSet`, its two arrays as functions of an
-- index. The two loops of `find` are on fuel; an index is fuel enough, since a parent lies below.
pub mod Roots
pub mod Merge
pub mod Partition
pub mod Ends
use event_recommender.Prelude.{
  ℕ, zero, suc, Bool, true, false, List, [], ◌∷◌, ◌++◌, if◌then◌else◌, leb, ◌==◌,
}

pub record Sets : Type 0 where
  pub parent : ℕ → ℕ
  pub component_members : ℕ → List ℕ

unfoldable pub write_at {ℓ} : {A : Type ℓ} → (ℕ → A) → ℕ → A → ℕ → A
write_at array i value j = if j == i then value else array j

unfoldable pub new_sets : Sets
new_sets = record { parent = λ i. i; component_members = λ i. i ∷ [] }

-- while (this.parent[root] !== root) root = this.parent[root]
unfoldable pub root_of : (fuel : ℕ) → (ℕ → ℕ) → ℕ → ℕ
root_of zero parent i = i
root_of (suc fuel) parent i =
    let rest = root_of fuel parent (parent i) in if parent i == i then i else rest

-- The second loop: each index on the way to the root becomes its child.
unfoldable pub compress : (fuel : ℕ) → (ℕ → ℕ) → (root i : ℕ) → ℕ → ℕ
unfolding write_at
compress zero parent root i = parent
compress (suc fuel) parent root i =
    let rest = compress fuel (write_at parent i root) root (parent i) in
    if parent i == i then parent else rest

unfoldable pub find : Sets → ℕ → ℕ × Sets
find s i =
    let root = root_of i s.parent i in (root, record s { parent = compress i s.parent root i })

abbrev pub lower_of : ℕ → ℕ → ℕ
lower_of a b = if leb a b then a else b

abbrev pub higher_of : ℕ → ℕ → ℕ
higher_of a b = if leb a b then b else a

-- What `union` writes once it has found two different roots.
unfoldable pub link : Sets → (root child : ℕ) → Sets
link s root child = record {
  parent = write_at s.parent child root;
  component_members =
      write_at
        (write_at s.component_members root (s.component_members root ++ s.component_members child))
        child [];
}

-- The sets after `union`; its result, the root, is used nowhere.
unfoldable pub union : Sets → (left right : ℕ) → Sets
union s left right =
    let first = find s left in
    let second = find first.1 right in
    if first.0 == second.0
    then second.1
    else link second.1 (lower_of first.0 second.0) (higher_of first.0 second.0)

unfoldable pub members : Sets → ℕ → List ℕ × Sets
members s i = let found = find s i in (found.1.component_members found.0, found.1)
