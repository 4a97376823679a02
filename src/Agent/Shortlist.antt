-- ===== src/Agent/Shortlist.antt =====
-- The tools that a planner turn binds, of agent/shortlist.py. Names and tokens are numbers. A text is
-- the list of tokens that `_TOKEN_RE` finds in it, with their lengths; the two constant sets of the
-- module, its stop words and the tools that are always kept, are parameters. `max_tools` is a number
-- here, so the test that it is not negative has no counterpart.
pub mod Emit
pub mod Kept
use teardrop.Agent.Plan.{elem}
use teardrop.Common.{
  Keyed, List, Option, [], false, if◌then◌else◌, leb, length, lookup, ltb, map, none, not, select,
  some, take, true, upsert, ℕ, ◌&&◌, ◌++◌, ◌-◌, ◌==◌, ◌∷◌,
}

pub record Token : Type 0 where
  pub text : ℕ
  pub size : ℕ

-- A tool: its name, and the text of its name, with spaces, and its description.
pub record Tool : Type 0 where
  pub name : ℕ
  pub described : List Token

abbrev add_new : ℕ → List ℕ → List ℕ
add_new n xs = if elem n xs then xs else n ∷ xs

-- _tokens
unfoldable pub tokens : List ℕ → List Token → List ℕ
tokens stopwords [] = []
tokens stopwords (t ∷ ts) =
    let rest = tokens stopwords ts in
    if leb 3 t.size && not (elem t.text stopwords) then add_new t.text rest else rest

-- by_name[name] = t, for each tool: a later one takes the place of an earlier one.
unfoldable pub by_name : Keyed Tool → List Tool → Keyed Tool
by_name table [] = table
by_name table (t ∷ ts) = by_name (upsert t.name t table) ts

abbrev pub names : Keyed Tool → List ℕ
names table = map (λ e. e.0) table

unfoldable pub score : List ℕ → List ℕ → Tool → ℕ
unfolding tokens
score stopwords req t = length (select (λ w. elem w req) (tokens stopwords t.described))

-- sorted by falling score, equal ones in the order they came in.
abbrev pub insert_scored : ℕ × ℕ → List (ℕ × ℕ) → List (ℕ × ℕ)
insert_scored e [] = e ∷ []
insert_scored e (x ∷ xs) =
    let rest = insert_scored e xs in if ltb x.0 e.0 then e ∷ x ∷ xs else x ∷ rest

unfoldable pub sort_scored : List (ℕ × ℕ) → List (ℕ × ℕ) → List (ℕ × ℕ)
sort_scored sorted [] = sorted
sort_scored sorted (e ∷ es) = sort_scored (insert_scored e sorted) es

-- xs or ys
abbrev pub or_else : List ℕ → List ℕ → List ℕ
or_else [] ys = ys
or_else (x ∷ xs) ys = x ∷ xs

-- The names that are kept besides those that always are: the hits, or the first candidates.
unfoldable pub selected_names : ℕ → List ℕ → List (ℕ × ℕ) → List ℕ
selected_names headroom always scored =
    let free = select (λ e. not (elem e.1 always)) scored in
    let hits = take headroom (map (λ e. e.1) (select (λ e. leb 1 e.0) free)) in
    or_else hits (take headroom (map (λ e. e.1) free))

-- The last loop; a name in `keep` is in the table.
unfoldable pub emit : List ℕ → Keyed Tool → List ℕ → List Tool → List Tool
emit keep table emitted [] = []
emit keep table emitted (t ∷ ts) = elim (elem t.name keep && not (elem t.name emitted)) [
  | false ↦ emit keep table emitted ts
  | true ↦ elim (lookup t.name table) [
    | none ↦ emit keep table (t.name ∷ emitted) ts
    | some u ↦ u ∷ emit keep table (t.name ∷ emitted) ts
  ]
]

-- `none` is the ValueError.
unfoldable pub select_shortlisted_tools :
    (stopwords always_keep : List ℕ) → List Token → List Tool → ℕ → Option (List Tool)
unfolding by_name score sort_scored selected_names emit
select_shortlisted_tools stopwords always_keep request_text tools max_tools =
    let table = by_name [] tools in
    let always = select (λ n. elem n (names table)) always_keep in
    let req = tokens stopwords request_text in
    let scored = sort_scored [] (map (λ e. (score stopwords req e.1, e.0)) table) in
    let keep = selected_names (max_tools - length always) always scored ++ always in
    if ltb max_tools (length always)
    then none
    else if length table == length tools && leb (length tools) max_tools
    then some tools
    else some (emit keep table [] tools)
