-- ===== src/Links/Tests.antt =====
-- Two lists of lists.h in one store: the nodes 2 and 3 at 1, and the node 6 at 5.
use opencli.Base.{refl, [], ◌∷◌, arith}
use opencli.Links.{Store, put, move_to_tail}
use opencli.Links.Ring.{Ring}
use opencli.Links.Move.{move_to_tail-Ring}

abbrev store : Store
store = record {
  next = put (put (put (put (put (λ k. 0) 1 2) 2 3) 3 1) 5 6) 6 5;
  prev = put (put (put (put (put (λ k. 0) 1 3) 3 2) 2 1) 5 6) 6 5;
}

first-Ring : Ring store 1 (2 ∷ 3 ∷ [])
first-Ring = record {
  chain = (refl, refl, (refl, refl, (refl, refl, tt)));
  distinct = ground arith;
}

second-Ring : Ring store 5 (6 ∷ [])
second-Ring = record { chain = (refl, refl, (refl, refl, tt)); distinct = ground arith }

move_to_tail-Ring_example :
    Ring (move_to_tail store 2 5) 1 (3 ∷ []) × Ring (move_to_tail store 2 5) 5 (6 ∷ 2 ∷ [])
move_to_tail-Ring_example =
    move_to_tail-Ring store 2 1 5 [] (3 ∷ []) (6 ∷ []) first-Ring second-Ring (ground arith)
