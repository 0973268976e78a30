-- ===== src/Heap/Tree/Examples.antt =====
-- The tree of Heap/Tree run on small heaps, and its theorems at them.
use iron_net.Prelude.{ℕ, ◌+◌, ◌≤◌, ◌≡◌, refl, arith, ◌⊎◌}
use iron_net.Heap.Entry.{HeapEntry}
use iron_net.Heap.Tree.{
  Tree, nil, node, level, insert, remove, remove_fuel, balance, rebalance, rotate, skew, split,
  search_block, entries,
}
use iron_net.Heap.Tree.Order.{IsOrdered, insert_entry, entries-insert}
use iron_net.Heap.Tree.Search.{find_block, search_block-find_block}
use iron_net.Heap.Tree.Remove.{erase_entry, entries-remove}
use iron_net.Heap.Tree.Balance.{IsBalanced, insert-IsBalanced}
use iron_net.Heap.Tree.Drop.{remove-IsBalanced}

abbrev block : ℕ → HeapEntry
block a = record {
  addr = a;
  total_size = 5;
  marked = 0;
  need_to_finalize = 0;
  type_def = 7;
  sync = 0;
}

abbrev leaf : ℕ → Tree
leaf a = node nil 1 (block a) nil

-- The blocks 10 to 50, inserted in the order of their addresses.
abbrev sample : Tree
sample = node (leaf 10) 2 (block 20) (node (leaf 30) 1 (block 40) (leaf 50))

abbrev five : Tree
five = node (leaf 10) 2 (block 20) (node (leaf 30) 2 (block 40) (leaf 50))

inserted :
    insert
      (insert (insert (insert (insert nil (block 10)) (block 20)) (block 30)) (block 40))
      (block 50)
    ≡ five
unfolding insert skew split
inserted = refl

-- The removal of the root puts its heir there, and TreeBalance lowers the tree.
removed_root : remove five 20 ≡ node (leaf 10) 2 (block 30) (node nil 1 (block 40) (leaf 50))
unfolding remove remove_fuel balance rebalance rotate skew split
removed_root = refl

five-IsOrdered : IsOrdered five
five-IsOrdered = omega arith

five-IsBalanced : IsBalanced five
five-IsBalanced = omega arith

entries-insert_example : entries (insert five (block 35)) ≡ insert_entry (block 35) (entries five)
entries-insert_example = entries-insert five (block 35) five-IsOrdered

entries-remove_example : entries (remove five 20) ≡ erase_entry 20 (entries five)
entries-remove_example = entries-remove five 20 five-IsOrdered

search_block-find_block_example : search_block five 43 ≡ find_block (entries five) 43
search_block-find_block_example = search_block-find_block five 43 (omega arith)

insert-IsBalanced_example :
    IsBalanced (insert five (block 35)) × (level (insert five (block 35)) ≤ level five + 1)
insert-IsBalanced_example = insert-IsBalanced five (block 35) five-IsBalanced (omega arith)

remove-IsBalanced_example :
    IsBalanced (remove five 20)
    × ((level (remove five 20) ≡ level five) ⊎ (level (remove five 20) + 1 ≡ level five))
remove-IsBalanced_example = remove-IsBalanced five 20 five-IsBalanced (omega arith)
