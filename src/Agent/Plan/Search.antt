-- ===== src/Agent/Plan/Search.antt =====
-- The depth-first search ends, and either finds a cycle or extends an order.
use teardrop.Agent.Plan.{Visit, cycle, deps, dfs, discard, each, elem, visits}
use teardrop.Agent.Plan.Members.{
  Distinct, Distinct-length, Within, discard-absent, elem_first, elem_more,
}
use teardrop.Agent.Plan.Order.{DependsOn, IsOrder, edge, longer}
use teardrop.Common.{
  ==_refl, Bool-cases, Keyed, List, [], ap, arith, false, inl, inr, length, refl, suc, sym, true,
  zero, ℕ, ◌+◌, ◌<◌, ◌==◌, ◌∷◌, ◌≡◌, ◌⊎◌,
}

-- What a search of some ids promises: a cycle that is one, or the same stack and a longer order with
-- the ids in it; and that it does not run out of fuel.
abbrev pub Finds : Keyed (List ℕ) → List ℕ → List ℕ → List ℕ → Visit → Type 0
Finds graph ds visiting visited result =
    ((result ≡ cycle) × ((v : ℕ) × DependsOn graph v v))
    ⊎ ((visited' : List ℕ) × (result ≡ visits visiting visited')
        × IsOrder graph visited'
        × Within ds visited'
        × Within visited visited')

-- What a search of an id needs: every id on the stack depends on it, in one step or more.
abbrev pub Leads : Keyed (List ℕ) → List ℕ → ℕ → Type 0
Leads graph visiting node = (x : ℕ) → elem x visiting ≡ true → DependsOn graph x node

Leads-dep :
    (graph : Keyed (List ℕ)) (visiting : List ℕ) (node d : ℕ)
    → Leads graph visiting node
    → elem d (deps graph node) ≡ true
    → Leads graph (node ∷ visiting) d
Leads-dep graph visiting node d leads dep x member = elim (Bool-cases (node == x)) [
  | inl same ↦ let e : x ≡ node = ground arith in edge (rw (sym e) at dep)
  | inr differ ↦ longer (leads x (rw differ at member)) dep
]

pub elem-cons :
    (x d : ℕ) (ds ys : List ℕ)
    → elem d ys ≡ true
    → (elem x ds ≡ true → elem x ys ≡ true)
    → elem x (d ∷ ds) ≡ true
    → elem x ys ≡ true
elem-cons x d ds ys first rest h = elim (Bool-cases (d == x)) [
  | inl same ↦ let e : d ≡ x = ground arith in rw e at first
  | inr differ ↦ rest (rw differ at h)
]

pub each-Finds :
    (graph : Keyed (List ℕ)) (go : ℕ → List ℕ → List ℕ → Visit) (ds visiting visited : List ℕ)
    → ((d : ℕ) (seen : List ℕ)
        → elem d ds ≡ true
        → IsOrder graph seen
        → Finds graph (d ∷ []) visiting seen (go d visiting seen))
    → IsOrder graph visited
    → Finds graph ds visiting visited (each go ds visiting visited)
each-Finds graph go [] visiting visited finds ordered =
    inr (visited, refl, ordered, (λ x h. cc), λ x h. h)
each-Finds graph go (d ∷ ds) visiting visited finds ordered =
    elim (finds d visited (elem_first d ds) ordered) [
      | inl (stops, found) ↦ inl (rw (stops, each) refl, found)
      | inr (seen, goes_on, ordered', has_d, more) ↦
          elim (each-Finds graph go ds visiting seen (λ x s h. finds x s (elem_more x d ds h))
            ordered') [
              | inl (stops, found) ↦ inl (rw (goes_on, each) stops, found)
              | inr (last, ends, ordered'', has_ds, more') ↦ inr (
                last,
                rw (goes_on, each) ends,
                ordered'',
                (λ x h. elem-cons x d ds last (more' d (has_d d (elem_first d []))) (has_ds x) h),
                λ x h. more' x (more x h),
              )
            ]
    ]

discard-first : (n : ℕ) (xs : List ℕ) → elem n xs ≡ false → discard n (n ∷ xs) ≡ xs
discard-first n xs absent = rw (==_refl n) (discard-absent n xs absent)

-- With one more level than the ids that are not on the stack, the search of an id keeps its promise.
pub dfs-Finds :
    (f : ℕ) (graph : Keyed (List ℕ)) (ids : List ℕ) (node : ℕ) (visiting visited : List ℕ)
    → ((v : ℕ) → Within (deps graph v) ids)
    → length ids < f + length visiting
    → Distinct visiting
    → Within visiting ids
    → elem node ids ≡ true
    → Leads graph visiting node
    → IsOrder graph visited
    → Finds graph (node ∷ []) visiting visited (dfs f graph node visiting visited)
unfolding dfs
dfs-Finds zero graph ids node visiting visited known enough distinct within at leads ordered =
    absurd (omega (arith, Distinct-length visiting ids distinct within))
dfs-Finds (suc f) graph ids node visiting visited known enough distinct within at leads ordered =
    elim (Bool-cases (elem node visited)) [
      | inl seen ↦
          rw (seen, dfs)
            (inr (
              visited,
              refl,
              ordered,
              λ x h. elem-cons x node [] visited seen (λ out. cc) h,
              λ x h. h,
            ))
      | inr unseen ↦ elim (Bool-cases (elem node visiting)) [
        | inl on_stack ↦ rw (unseen, on_stack, dfs) (inl (refl, (node, leads node on_stack)))
        | inr off_stack ↦
            let search =
              each-Finds graph (λ d xs ys. dfs f graph d xs ys) (deps graph node) (node ∷ visiting)
                visited
                (λ d s dep order.
                  dfs-Finds f graph ids d (node ∷ visiting) s known (omega arith)
                    (off_stack, distinct) (λ x h. elem-cons x node visiting ids at (within x) h)
                    (known node d dep) (Leads-dep graph visiting node d leads dep) order)
                ordered in
            elim search [
              | inl (stops, found) ↦ rw (unseen, off_stack, dfs, stops) (inl (refl, found))
              | inr (last, ends, ordered', has_deps, more) ↦
                  rw (unseen, off_stack, dfs, ends)
                    (inr (
                      node ∷ last,
                      ap (λ xs. visits xs (node ∷ last)) (discard-first node visiting off_stack),
                      (has_deps, ordered'),
                      (λ x h.
                          elem-cons x node [] (node ∷ last) (elem_first node last) (λ out. cc) h),
                      λ x h. elem_more x node last (more x h),
                    ))
            ]
      ]
    ]
