-- ===== src/Agent/Shortlist/Emit.antt =====
-- The last loop of the shortlist, over a table of tools that stand under their names.
use teardrop.Agent.Plan.{elem}
use teardrop.Agent.Plan.Members.{Distinct, Within, elem_first, elem_more}
use teardrop.Agent.Plan.Search.{elem-cons}
use teardrop.Agent.Shortlist.{Tool, by_name, emit, names}
use teardrop.Common.{
  Bool-cases, Bool-clash, Keyed, List, Option-cases, [], ap, arith, false, inl, inr, length, lookup,
  lookup-upsert, map, not, refl, some, subst, suc, sym, true, upsert, ℕ, ◌&&◌, ◌==◌, ◌∙◌, ◌∷◌, ◌≡◌,
}

abbrev pub tool_names : List Tool → List ℕ
tool_names ts = map (λ t. t.name) ts

pub length-tool_names : (ts : List Tool) → length (tool_names ts) ≡ length ts
length-tool_names [] = refl
length-tool_names (t ∷ ts) = ap suc (length-tool_names ts)

-- Every entry of the table of tools stands under its own name.
abbrev pub Named : Keyed Tool → Type 0
Named table = (n : ℕ) (t : Tool) → lookup n table ≡ some t → t.name ≡ n

upsert-Named : (t : Tool) (table : Keyed Tool) → Named table → Named (upsert t.name t table)
upsert-Named t table named n u at =
    let there = sym (lookup-upsert t.name n t table) ∙ at in
    elim (Bool-cases (t.name == n)) [
      | inl same ↦ let e : t ≡ u = cc (rw same at there) in rw (sym e) (ground (arith, same))
      | inr differ ↦ named n u (rw differ at there)
    ]

pub by_name-Named : (table : Keyed Tool) (ts : List Tool) → Named table → Named (by_name table ts)
unfolding by_name
by_name-Named table [] named = named
by_name-Named table (t ∷ ts) named =
    by_name-Named (upsert t.name t table) ts (upsert-Named t table named)

absent-cons :
    (n x : ℕ) (emitted out : List ℕ)
    → elem x emitted ≡ false
    → elem n emitted ≡ true
    → elem n out ≡ false
    → elem n (x ∷ out) ≡ false
absent-cons n x emitted out fresh member missing = elim (Bool-cases (x == n)) [
  | inr differ ↦ rw differ missing
  | inl same ↦ let e : x ≡ n = ground arith in absurd (Bool-clash member (rw e at fresh))
]

-- The tools that come out have distinct names, all of them kept and none emitted before.
pub emit-Distinct :
    (keep emitted : List ℕ) (table : Keyed Tool) (ts : List Tool)
    → Named table
    → Distinct (tool_names (emit keep table emitted ts))
      × Within (tool_names (emit keep table emitted ts)) keep
      × ((n : ℕ) → elem n emitted ≡ true → elem n (tool_names (emit keep table emitted ts)) ≡ false)
unfolding emit
emit-Distinct keep emitted table [] named = (tt, (λ x h. cc), λ n h. refl)
emit-Distinct keep emitted table (t ∷ ts) named =
    elim (Bool-cases (elem t.name keep && not (elem t.name emitted))) [
      | inr skip ↦ rw (skip, emit) (emit-Distinct keep emitted table ts named)
      | inl takes ↦
          let kept : elem t.name keep ≡ true = ground (arith, takes) in
          let fresh : elem t.name emitted ≡ false = ground (arith, takes) in
          let (distinct, within, avoids) = emit-Distinct keep (t.name ∷ emitted) table ts named in
          elim (Option-cases (lookup t.name table)) [
            | inl missing ↦
                rw (takes, missing, emit)
                  (distinct, within, λ n h. avoids n (elem_more n t.name emitted h))
            | inr (u, at) ↦
                let e : t.name ≡ u.name = sym (named t.name u at) in
                let out = tool_names (emit keep table (t.name ∷ emitted) ts) in
                rw (takes, at, emit)
                  (
                    (
                      subst (λ x. elem x out ≡ false) e (avoids t.name (elem_first t.name emitted)),
                      distinct,
                    ),
                    (λ x h. elem-cons x u.name out keep (rw e at kept) (within x) h),
                    λ n h.
                        absent-cons n u.name emitted out (rw e at fresh) h
                          (avoids n (elem_more n t.name emitted h)),
                  )
          ]
    ]

by_name-stays :
    (table : Keyed Tool) (ts : List Tool) (n : ℕ) (u : Tool)
    → lookup n table ≡ some u
    → (v : Tool) × (lookup n (by_name table ts) ≡ some v)
unfolding by_name
by_name-stays table [] n u at = (u, at)
by_name-stays table (t ∷ ts) n u at = elim (Bool-cases (t.name == n)) [
  | inl same ↦
      by_name-stays (upsert t.name t table) ts n t (rw (lookup-upsert t.name n t table, same) refl)
  | inr differ ↦
      by_name-stays (upsert t.name t table) ts n u (rw (lookup-upsert t.name n t table, differ) at)
]

-- Every tool of the list has an entry under its name.
pub by_name-has :
    (table : Keyed Tool) (ts : List Tool) (n : ℕ)
    → elem n (tool_names ts) ≡ true
    → (v : Tool) × (lookup n (by_name table ts) ≡ some v)
unfolding by_name
by_name-has table [] n h = cc
by_name-has table (t ∷ ts) n h = elim (Bool-cases (t.name == n)) [
  | inl same ↦
      by_name-stays (upsert t.name t table) ts n t (rw (lookup-upsert t.name n t table, same) refl)
  | inr differ ↦ by_name-has (upsert t.name t table) ts n (rw differ at h)
]

pub names-lookup :
    (n : ℕ) (u : Tool) (table : Keyed Tool) → lookup n table ≡ some u → elem n (names table) ≡ true
names-lookup n u [] at = cc
names-lookup n u ((k, v) ∷ table) at = ground (arith, names-lookup n u table)

-- A kept name of the list that was not emitted before comes out.
pub emit-kept :
    (keep emitted : List ℕ) (table : Keyed Tool) (ts : List Tool) (n : ℕ)
    → Named table
    → ((m : ℕ) → elem m (tool_names ts) ≡ true → (v : Tool) × (lookup m table ≡ some v))
    → elem n keep ≡ true
    → elem n emitted ≡ false
    → elem n (tool_names ts) ≡ true
    → elem n (tool_names (emit keep table emitted ts)) ≡ true
unfolding emit
emit-kept keep emitted table [] n named has kept fresh h = cc
emit-kept keep emitted table (t ∷ ts) n named has kept fresh h =
    let (u, at) = has t.name (elem_first t.name (tool_names ts)) in
    let has' : (m : ℕ) → elem m (tool_names ts) ≡ true → (v : Tool) × (lookup m table ≡ some v) =
      λ m g. has m (elem_more m t.name (tool_names ts) g) in
    let is_t = named t.name u at in
    elim (Bool-cases (t.name == n)) [
      | inl same ↦
          let e : t.name ≡ n = ground arith in
          let takes : (elem t.name keep && not (elem t.name emitted)) ≡ true =
            rw (e, kept, fresh) refl in
          let out = tool_names (emit keep table (t.name ∷ emitted) ts) in
          rw (takes, at, emit)
            (subst (λ x. elem n (x ∷ out) ≡ true) (sym (is_t ∙ e)) (elem_first n out))
      | inr differ ↦
          let later_on = rw differ at h in
          elim (Bool-cases (elem t.name keep && not (elem t.name emitted))) [
            | inr skip ↦
                rw (skip, emit) (emit-kept keep emitted table ts n named has' kept fresh later_on)
            | inl takes ↦
                let fresh' : elem n (t.name ∷ emitted) ≡ false = rw differ fresh in
                rw (takes, at, emit)
                  (elem_more n u.name (tool_names (emit keep table (t.name ∷ emitted) ts))
                    (emit-kept keep (t.name ∷ emitted) table ts n named has' kept fresh' later_on))
          ]
    ]
