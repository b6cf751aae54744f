-- ===== src/Catalog/Forest.antt =====
-- The tree of categories: `categories_tree_endpoint` of apps/api/src/ozzb2b_api/routes/catalog.py. The nodes
-- are objects that the code shares: a node is its id, and the forest says which ids the roots are and
-- which each node has appended to its children.
use ozzb2b.Shared.{ℕ, none, some, List, [], ◌∷◌, ◌++◌, map, ◌==◌, nat_eq, update}
use ozzb2b.Catalog.Data.{CategoryEntry, CatalogDb, Sql}
use ozzb2b.Catalog.Query.{list_categories}
use ozzb2b.Catalog.View.{CategoryPublic, public_category}

pub record CategoryTreeNode : Type 0 where
  pub id : ℕ
  pub category : CategoryPublic
  pub children : List ℕ

pub record Forest : Type 0 where
  pub by_id : List CategoryTreeNode
  pub roots : List ℕ

unfoldable pub tree_node : CategoryEntry → CategoryTreeNode
tree_node c = record { id = c.id; category = public_category c; children = [] }

-- `by_id.get(parent_id)`, and `parent.children.append(node)` for a parent that is there
unfoldable pub append_child : ℕ → ℕ → List CategoryTreeNode → List CategoryTreeNode
append_child parent_id id nodes =
    update (λ n. n.id == parent_id) (λ n. record n { children = n.children ++ id ∷ [] }) nodes

unfoldable pub place_category : CategoryEntry → Forest → Forest
place_category c t = elim c.parent_id [
  | none ↦ record t { roots = t.roots ++ c.id ∷ [] }
  | some parent_id ↦ record t { by_id = append_child parent_id c.id t.by_id }
]

unfoldable pub place_all : List CategoryEntry → Forest → Forest
place_all [] t = t
place_all (c ∷ cs) t = place_all cs (place_category c t)

unfoldable pub categories_tree : List CategoryEntry → Forest
categories_tree flat = place_all flat (record { by_id = map tree_node flat; roots = [] })

pub categories_tree_endpoint : Sql → CatalogDb → Forest
categories_tree_endpoint sql db = categories_tree (list_categories sql db)
