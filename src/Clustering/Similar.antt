-- ===== src/Clustering/Similar.antt =====
-- The groups of `cluster_by_similarity`: each id stands in one, and two ids in the same one exactly if
-- a chain of similar pairs connects them.
use ga_ottt.Base.{
  ℕ, ◌+◌, ◌<◌, ◌≡◌, ◌↔◌, ◌∙◌, sym, refl, ap, subst, inl, inr, true, Option, none, some, List, [],
  ◌∷◌, arith, length, All,
}
use ga_ottt.Dict.{Dict, lookup, keys, has}
use ga_ottt.Dict.Laws.{has-keys}
use ga_ottt.Clustering.{init_parents, groups, raw_groups}
use ga_ottt.Clustering.Unions.{Known}
use ga_ottt.Clustering.Connected.{
  Joins, Connected, edge, same, back, through, Rooted, union_all_lem,
}
use ga_ottt.Clustering.Start.{init_parents-Known, init_parents-Forest}
use ga_ottt.Clustering.Groups.{row, same_id, groups_from_lem}

module _ {A : Type 0} (dec : Discrete A) where
  -- Both ends of every pair are among the ids.
  abbrev pub Within : List A → List (A × A) → Type 0
  Within ids pairs = All (λ e. (has dec e.0 ids ≡ true) × (has dec e.1 ids ≡ true)) pairs

  Within-Known :
      (ids : List A) (pairs : List (A × A))
      → Within ids pairs
      → All
          (λ e. Known dec (init_parents dec ids []) e.0 × Known dec (init_parents dec ids []) e.1)
          pairs
  Within-Known ids [] within = tt
  Within-Known ids ((a, b) ∷ pairs) ((ha, hb), within) = (
    (init_parents-Known dec ids [] a ha, init_parents-Known dec ids [] b hb),
    Within-Known ids pairs within,
  )

  keys-Known :
      (p : Dict A A) (xs : List A)
      → ((x : A) → has dec x xs ≡ true → has dec x (keys p) ≡ true)
      → All (Known dec p) xs
  unfolding has
  keys-Known p [] inside = tt
  keys-Known p (x ∷ xs) inside =
      (known (lookup dec x p) refl, keys-Known p xs (λ y there. inside y (ground arith)))
    where
      known : (o : Option A) → lookup dec x p ≡ o → Known dec p x
      known none q = ground (arith, inside x, has-keys dec x p)
      known (some y) q = (y, q)

  All-edges :
      (pairs done : List (A × A))
      → ((x y : A) → Joins done x y → Joins pairs x y)
      → All (λ e. Connected pairs e.0 e.1) done
  All-edges pairs [] inside = tt
  All-edges pairs ((a, b) ∷ done) inside =
      (edge (inside a b (inl (refl, refl))), All-edges pairs done (λ x y j. inside x y (inr j)))

  -- Groups by a root that the pairs determine.
  abbrev pub GroupsBy : List A → List (A × A) → (A → A) → Dict A (List A) → Type 0
  GroupsBy ids pairs root out =
      ((r x : A) → has dec x ids ≡ true → has dec x (row dec r out) ≡ same_id dec (root x) r)
      × Rooted dec pairs root
      × All (λ e. root e.0 ≡ root e.1) pairs

  raw_groups-GroupsBy :
      (n : ℕ) (ids : List A) (pairs : List (A × A))
      → Within ids pairs
      → length pairs < n
      → (out : Dict A (List A)) × (root : A → A) × (raw_groups dec n ids pairs ≡ some out)
        × GroupsBy ids pairs root out
  unfolding raw_groups groups lookup has
  raw_groups-GroupsBy n ids pairs within enough =
      let (p, root, depth, end, f, grown, rooted, united, _) =
        union_all_lem dec n pairs pairs (init_parents dec ids []) 0 (λ x. x) (λ x. 0)
          (init_parents-Forest dec ids) (omega (arith, enough)) (Within-Known ids pairs within)
          (All-edges pairs pairs (λ x y j. j)) (λ x. same) in
      let (out, end', members) =
        groups_from_lem dec n (keys p) p (0 + length pairs) root depth [] f (omega (arith, enough))
          (keys-Known p (keys p) (λ x there. there)) in
      (
        out,
        root,
        rw (raw_groups, end) end',
        (
          λ r x there.
              let (v, known) = init_parents-Known dec ids [] x there in
              let (w, known') = grown x v known in ground (arith, members r x, has-keys dec x p),
          rooted,
          united,
        ),
      )

  -- Both ids stand in one group.
  abbrev pub Together : Dict A (List A) → A → A → Type 0
  Together out x y =
      (r : A) × (has dec x (row dec r out) ≡ true) × (has dec y (row dec r out) ≡ true)

  chain_root :
      (pairs : List (A × A)) (root : A → A)
      → All (λ e. root e.0 ≡ root e.1) pairs
      → (x y : A) → Connected pairs x y
      → root x ≡ root y
  chain_root pairs root united x y (edge j) = joins pairs united x y j
    where
      joins :
          (ps : List (A × A))
          → All (λ e. root e.0 ≡ root e.1) ps
          → (x y : A) → Joins ps x y
          → root x ≡ root y
      joins [] u x y j = elim j [ ]
      joins ((a, b) ∷ ps) (u, us) x y (inl (p, q)) = ap root p ∙ u ∙ ap root (sym q)
      joins ((a, b) ∷ ps) (u, us) x y (inr j) = joins ps us x y j
  chain_root pairs root united x y same = refl
  chain_root pairs root united x y (back c) = sym (chain_root pairs root united y x c)
  chain_root pairs root united x y (through {y = z} c d) =
      chain_root pairs root united x z c ∙ chain_root pairs root united z y d

  root_chain :
      (pairs : List (A × A)) (root : A → A)
      → Rooted dec pairs root
      → (x y : A) → root x ≡ root y
      → Connected pairs x y
  root_chain pairs root rooted x y e =
      through (subst (λ r. Connected pairs x r) e (rooted x)) (back (rooted y))

  -- Two ids of the list stand in one group exactly if the pairs connect them.
  abbrev pub FollowsPairs : List A → List (A × A) → Dict A (List A) → Type 0
  FollowsPairs ids pairs out =
      (x y : A)
      → has dec x ids ≡ true
      → has dec y ids ≡ true
      → (Together out x y ↔ Connected pairs x y)

  GroupsBy-FollowsPairs :
      (ids : List A) (pairs : List (A × A)) (root : A → A) (out : Dict A (List A))
      → GroupsBy ids pairs root out
      → FollowsPairs ids pairs out
  GroupsBy-FollowsPairs ids pairs root out (members, rooted, united) x y there-x there-y = (
    λ t.
        root_chain pairs root rooted x y
          (ground (arith, t.1, t.2, members t.0 x there-x, members t.0 y there-y)),
    λ c. (
      root x,
      ground (arith, members (root x) x there-x),
      ground (arith, members (root x) y there-y, chain_root pairs root united x y c),
    ),
  )

  -- No group but that of `home` has the member `x`.
  abbrev pub IsOnlyIn : Dict A (List A) → A → A → Type 0
  IsOnlyIn out x home = (r : A) → has dec x (row dec r out) ≡ true → r ≡ home

  -- Each id of the list is in one group: the one of its `home`, and no other.
  abbrev pub IsPartition : List A → Dict A (List A) → Type 0
  IsPartition ids out =
      (x : A)
      → has dec x ids ≡ true
      → (home : A) × (has dec x (row dec home out) ≡ true) × IsOnlyIn out x home

  -- With both ends of every pair among the ids and more fuel than there are pairs, the loops of the
  -- union-find end with groups, and every id of the list is a member of one group and of no other,
  -- and two ids of the list stand in one group exactly if the pairs connect them.
  pub raw_groups-IsPartition :
      (n : ℕ) (ids : List A) (pairs : List (A × A))
      → Within ids pairs
      → length pairs < n
      → (out : Dict A (List A)) × (raw_groups dec n ids pairs ≡ some out)
        × IsPartition ids out
        × FollowsPairs ids pairs out
  raw_groups-IsPartition n ids pairs within enough =
      let (out, root, end, (members, rooted, united)) =
        raw_groups-GroupsBy n ids pairs within enough in
      (
        out,
        end,
        λ x there. (
          root x,
          ground (arith, members (root x) x there),
          λ r t. ground (arith, t, members r x there),
        ),
        GroupsBy-FollowsPairs ids pairs root out (members, rooted, united),
      )
