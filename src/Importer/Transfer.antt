-- ===== src/Importer/Transfer.antt =====
-- The transfer of the files: nothing is lost on the way, and a copy leaves the source alone.
use ga_ottt.Base.{
  ◌≡◌, ◌⊎◌, refl, inl, inr, Bool, true, false, Option, none, some, List, [], ◌∷◌, arith,
  if◌then◌else◌, All,
}
use ga_ottt.Dict.{Dict, lookup, insert, erase}
use ga_ottt.Dict.Laws.{lookup-insert, lookup-erase}
use ga_ottt.Importer.{transfer}

module _ {N D : Type 0} (dec : Discrete N) where
  -- The file is where it was, or it is in the target and no more in the source.
  abbrev pub IsKept : Dict N D → N → Dict N D → Dict N D → Type 0
  IsKept start k source target =
      (lookup dec k source ≡ lookup dec k start)
      ⊎ ((lookup dec k source ≡ none) × (lookup dec k target ≡ lookup dec k start))

  moved-IsKept :
      (start : Dict N D) (k n : N) (d : D) (move : Bool) (source target : Dict N D)
      → lookup dec n source ≡ some d
      → IsKept start k source target
      → IsKept start k (if move then erase dec n source else source) (insert dec n d target)
  moved-IsKept start k n d move source target there (inl same) = by (dec n k) move
    where
      by :
          (c : Dec (n ≡ k)) (move : Bool)
          → IsKept start k (if move then erase dec n source else source) (insert dec n d target)
      by c false = inl same
      by (yes e) true = inr (
        ground (arith, lookup-erase dec n k source, e),
        ground (arith, lookup-insert dec n k d target, e, there, same),
      )
      by (no ne) true = inl (ground (arith, lookup-erase dec n k source, ne, same))
  moved-IsKept start k n d move source target there (inr (gone, arrived)) = by (dec n k) move
    where
      by :
          (c : Dec (n ≡ k)) (move : Bool)
          → IsKept start k (if move then erase dec n source else source) (insert dec n d target)
      by (yes e) move = absurd (ground (arith, e, there, gone))
      by (no ne) true = inr (
        ground (arith, lookup-erase dec n k source, gone),
        ground (arith, lookup-insert dec n k d target, ne, arrived),
      )
      by (no ne) false = inr (gone, ground (arith, lookup-insert dec n k d target, ne, arrived))

  abbrev pub AreKept : Dict N D → N → Dict N D × Dict N D × Bool → Type 0
  AreKept start k (source, target, through) = IsKept start k source target

  pub transfer-AreKept :
      (start : Dict N D) (k : N) (move : Bool) (transfers : N → Bool) (ns : List N)
      (source target : Dict N D)
      → IsKept start k source target
      → AreKept start k (transfer dec move transfers ns source target)
  unfolding transfer
  transfer-AreKept start k move transfers [] source target kept = kept
  transfer-AreKept start k move transfers (n ∷ ns) source target kept =
      by (lookup dec n source) refl (transfers n) (λ d there.
        transfer-AreKept start k move transfers ns (if move then erase dec n source else source)
          (insert dec n d target) (moved-IsKept start k n d move source target there kept))
    where
      by :
          (found : Option D)
          → lookup dec n source ≡ found
          → (b : Bool)
          → ((d : D)
              → lookup dec n source ≡ some d
              → AreKept start k (
                  transfer dec move transfers ns
                    (if move then erase dec n source else source)
                    (insert dec n d target)))
          → AreKept start k (elim found [
            | none ↦ (source, target, false)
            | some d ↦
                let rest : Dict N D × Dict N D × Bool =
                  transfer dec move transfers ns
                    (if move then erase dec n source else source)
                    (insert dec n d target) in
                if b then rest else (source, target, false)
          ])
      by none e b rest = kept
      by (some d) e true rest = rest d e
      by (some d) e false rest = kept

  -- What a copy leaves: the source, and when every file came through, each of them in the target.
  abbrev pub IsCopied : Dict N D → Dict N D → List N → Dict N D × Dict N D × Bool → Type 0
  IsCopied source before ns (source', target, through) =
      (source' ≡ source)
      × ((k : N)
          → (lookup dec k before ≡ lookup dec k source)
          → lookup dec k target ≡ lookup dec k source)
      × (through ≡ true → All (λ k. lookup dec k target ≡ lookup dec k source) ns)

  insert-agrees :
      (source target : Dict N D) (n k : N) (d : D)
      → lookup dec n source ≡ some d
      → lookup dec k target ≡ lookup dec k source
      → lookup dec k (insert dec n d target) ≡ lookup dec k source
  insert-agrees source target n k d there same = by (dec n k)
    where
      by : Dec (n ≡ k) → lookup dec k (insert dec n d target) ≡ lookup dec k source
      by (yes e) = ground (arith, lookup-insert dec n k d target, e, there)
      by (no ne) = ground (arith, lookup-insert dec n k d target, ne, same)

  pub transfer-IsCopied :
      (transfers : N → Bool) (ns : List N) (source target : Dict N D)
      → IsCopied source target ns (transfer dec false transfers ns source target)
  unfolding transfer
  transfer-IsCopied transfers [] source target = (refl, λ k same. same, λ through. tt)
  transfer-IsCopied transfers (n ∷ ns) source target =
      by (lookup dec n source) refl (transfers n)
        (λ d. transfer-IsCopied transfers ns source (insert dec n d target))
    where
      by :
          (found : Option D)
          → lookup dec n source ≡ found
          → (b : Bool)
          → ((d : D)
              → IsCopied source
                  (insert dec n d target)
                  ns
                  (transfer dec false transfers ns source (insert dec n d target)))
          → IsCopied source target (n ∷ ns) (elim found [
            | none ↦ (source, target, false)
            | some d ↦
                let rest : Dict N D × Dict N D × Bool =
                  transfer dec false transfers ns source (insert dec n d target) in
                if b then rest else (source, target, false)
          ])
      by none e b rest = (refl, λ k same. same, λ through. cc)
      by (some d) e false rest = (refl, λ k same. same, λ through. cc)
      by (some d) e true rest = (
        (rest d).0,
        λ k same. (rest d).1 k (insert-agrees source target n k d e same),
        λ through.
            ((rest d).1 n (ground (arith, lookup-insert dec n n d target, e)), (rest d).2 through),
      )
