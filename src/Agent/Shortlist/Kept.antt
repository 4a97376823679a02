-- ===== src/Agent/Shortlist/Kept.antt =====
-- What a shortlist keeps, and how much.
use teardrop.Agent.Plan.{elem}
use teardrop.Agent.Plan.Members.{Distinct, Distinct-length, elem_first, elem_more}
use teardrop.Agent.Shortlist.{
  Token, Tool, by_name, emit, names, or_else, score, select_shortlisted_tools, selected_names,
  sort_scored, tokens,
}
use teardrop.Agent.Shortlist.Emit.{
  Named, by_name-Named, by_name-has, emit-Distinct, emit-kept, length-tool_names, names-lookup,
  tool_names,
}
use teardrop.Common.{
  Bool, Bool-cases, List, [], arith, inl, inr, leb, length, length-append, ltb, ltb→lt, map, none,
  not, refl, select, some, subst, suc, sym, take, true, zero, ℕ, ◌&&◌, ◌++◌, ◌-◌, ◌<◌, ◌==◌, ◌∷◌,
  ◌≡◌, ◌≤◌, ◌⊎◌,
}

take_le {ℓ} : {A : Type ℓ} (n : ℕ) (xs : List A) → length (take n xs) ≤ n
take_le zero xs = omega arith
take_le (suc n) [] = omega arith
take_le (suc n) (x ∷ xs) = omega (arith, take_le n xs)

or_else_le : (n : ℕ) (xs ys : List ℕ) → length xs ≤ n → length ys ≤ n → length (or_else xs ys) ≤ n
or_else_le n [] ys left right = right
or_else_le n (x ∷ xs) ys left right = left

selected_names_le :
    (headroom : ℕ) (always : List ℕ) (scored : List (ℕ × ℕ))
    → length (selected_names headroom always scored) ≤ headroom
unfolding selected_names
selected_names_le headroom always scored =
    let free = select (λ e. not (elem e.1 always)) scored in
    or_else_le headroom (take headroom (map (λ e. e.1) (select (λ e. leb 1 e.0) free)))
      (take headroom (map (λ e. e.1) free))
      (take_le headroom (map (λ e. e.1) (select (λ e. leb 1 e.0) free)))
      (take_le headroom (map (λ e. e.1) free))

elem-append : (n : ℕ) (xs ys : List ℕ) → elem n ys ≡ true → elem n (xs ++ ys) ≡ true
elem-append n [] ys h = h
elem-append n (x ∷ xs) ys h = elem_more n x (xs ++ ys) (elem-append n xs ys h)

elem-select :
    (n : ℕ) (p : ℕ → Bool) (xs : List ℕ)
    → elem n xs ≡ true
    → p n ≡ true
    → elem n (select p xs) ≡ true
elem-select n p [] h passes_it = cc
elem-select n p (x ∷ xs) h passes_it = elim (Bool-cases (x == n)) [
  | inl same ↦
      let e : x ≡ n = ground arith in
      let taken_in : p x ≡ true = rw (sym e) at passes_it in
      rw taken_in
        (subst (λ y. elem n (y ∷ select p xs) ≡ true) (sym e) (elem_first n (select p xs)))
  | inr differ ↦ elim (Bool-cases (p x)) [
    | inl keep ↦
        rw keep (elem_more n x (select p xs) (elem-select n p xs (rw differ at h) passes_it))
    | inr drop_it ↦ rw drop_it (elem-select n p xs (rw differ at h) passes_it)
  ]
]

-- The shortlist of a turn either raises, when the tools that are always kept are more than
-- `max_tools`, or has at most `max_tools` tools, among them each of the always-kept tools that the
-- list has; when it is not the list itself, its tools have distinct names.
pub select_shortlisted_tools_le :
    (stopwords always_keep : List ℕ) (request_text : List Token) (tools : List Tool) (max_tools : ℕ)
    → let always = select (λ n. elem n (names (by_name [] tools))) always_keep in
      let outcome = select_shortlisted_tools stopwords always_keep request_text tools max_tools in
      ((outcome ≡ none) × (max_tools < length always))
      ⊎ ((out : List Tool) × (outcome ≡ some out)
          × (length out ≤ max_tools)
          × ((out ≡ tools) ⊎ Distinct (tool_names out))
          × ((n : ℕ)
              → elem n always_keep ≡ true
              → elem n (tool_names tools) ≡ true
              → elem n (tool_names out) ≡ true))
unfolding select_shortlisted_tools
select_shortlisted_tools_le stopwords always_keep request_text tools max_tools =
    let table = by_name [] tools in
    let always = select (λ n. elem n (names table)) always_keep in
    let req = tokens stopwords request_text in
    let scored = sort_scored [] (map (λ e. (score stopwords req e.1, e.0)) table) in
    let chosen = selected_names (max_tools - length always) always scored in
    elim (Bool-cases (ltb max_tools (length always))) [
      | inl many ↦
          inl (rw (many, select_shortlisted_tools) refl, ltb→lt max_tools (length always) many)
      | inr room ↦
          elim (Bool-cases (length table == length tools && leb (length tools) max_tools)) [
            | inl whole ↦ inr (
              tools,
              rw (room, whole, select_shortlisted_tools) refl,
              ground (arith, whole),
              inl refl,
              λ n a h. h,
            )
            | inr partly ↦
                let named : Named table = by_name-Named [] tools (λ n t at. cc) in
                let (distinct, within, _) = emit-Distinct (chosen ++ always) [] table tools named in
                let out = emit (chosen ++ always) table [] tools in
                let size = Distinct-length (tool_names out) (chosen ++ always) distinct within in
                let bound = selected_names_le (max_tools - length always) always scored in
                let both = length-append chosen always in
                let same = length-tool_names out in
                inr (
                  out,
                  rw (room, partly, select_shortlisted_tools) refl,
                  ground (arith, room, size, bound, both, same),
                  inr distinct,
                  λ n a h.
                      let (v, at) = by_name-has [] tools n h in
                      emit-kept (chosen ++ always) [] table tools n named (by_name-has [] tools)
                        (elem-append n chosen always (
                          elem-select n (λ m. elem m (names table)) always_keep a
                            (names-lookup n v table at)))
                        refl h,
                )
          ]
    ]
