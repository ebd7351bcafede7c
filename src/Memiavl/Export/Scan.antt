-- ===== src/Memiavl/Export/Scan.antt =====
-- `ScanPostOrder` of memiavl/tree.go visits the nodes in post-order.
use cronos_store.Common.{
  ℕ, suc, ◌+◌, ◌≡◌, refl, ap, ◌∙◌, subst, sym, true, false, Option, none, some, List, [], ◌∷◌, ◌++◌,
  append_assoc, append-nil, arith,
}
use cronos_store.Common.Panic.{◌>>=◌}
use cronos_store.Memiavl.Node.{Node, leaf, branch}
use cronos_store.Memiavl.Export.{
  ExportNode, export_node, StackEntry, entry, rounds, scan_loop, scan_post_order,
}

-- The nodes of a tree, each behind its children.
unfoldable pub post_order : Node → List ExportNode
post_order (leaf v key value hash) = export_node (leaf v key value hash) ∷ []
post_order (branch h s v key hash l r) =
    post_order l ++ (post_order r ++ export_node (branch h s v key hash l r) ∷ [])

collect :
    (o : Option (List ExportNode)) (xs ys : List ExportNode) (e : ExportNode)
    → (((o >>= λ m. some (e ∷ m)) >>= λ m. some (ys ++ m)) >>= λ m. some (xs ++ m))
      ≡ (o >>= λ m. some ((xs ++ (ys ++ e ∷ [])) ++ m))
collect none xs ys e = refl
collect (some m) xs ys e =
    ap some (
      ap (λ z. xs ++ z) (sym (append_assoc ys (e ∷ []) m)) ∙ sym (append_assoc xs (ys ++ e ∷ []) m))

scan_loop-post_order :
    (t : Node) (fuel : ℕ) (stack : List StackEntry)
    → scan_loop (rounds t + fuel) (entry t false ∷ stack)
      ≡ (scan_loop fuel stack >>= λ more. some (post_order t ++ more))
unfolding scan_loop rounds post_order
scan_loop-post_order (leaf v key value hash) fuel stack =
    let one : 1 + fuel ≡ suc fuel = omega arith in rw one refl
scan_loop-post_order (branch h s v key hash l r) fuel stack =
    let steps : suc (suc (rounds l + rounds r)) + fuel ≡ suc (rounds l + (rounds r + suc fuel)) =
      omega arith in
    let n = branch h s v key hash l r in
    let below = entry n true ∷ stack in
    rw
      (
        steps,
        scan_loop-post_order l (rounds r + suc fuel) (entry r false ∷ below),
        scan_loop-post_order r (suc fuel) below,
      )
      (collect (scan_loop fuel stack) (post_order l) (post_order r) (export_node n))

pub scan_post_order-post_order : (t : Node) → scan_post_order (some t) ≡ some (post_order t)
unfolding scan_post_order
scan_post_order-post_order t =
    let one : rounds t + 1 ≡ suc (rounds t) = omega arith in
    subst (λ n. scan_loop n (entry t false ∷ []) ≡ some (post_order t)) one
      (scan_loop-post_order t 1 [] ∙ unfold scan_loop in ap some (append-nil (post_order t)))
