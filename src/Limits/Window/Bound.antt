-- ===== src/Limits/Window/Bound.antt =====
-- At most `limit` requests of a key in any window of 60 seconds.
use teardrop.Common.{
  All, Bool-cases, Keyed, List, [], arith, count_where, false, if◌then◌else◌, inl, inr, leb, length,
  length-upsert, lookup-upsert, ltb, refl, select, subst, sym, true, upsert, ℕ, ◌&&◌, ◌++◌, ◌+◌,
  ◌-◌, ◌<◌, ◌==◌, ◌∷◌, ◌≡◌, ◌≤◌, ◌⊎◌,
}
use teardrop.Limits.Window.{
  Request, check_in_process, check_rate_limit, history, rate_counter_max_keys, serve, window,
}

-- The admitted requests of a key in the window that starts at `s`.
abbrev pub in_window : ℕ → ℕ → List Request → ℕ
in_window k s rs = count_where (λ r. r.key == k && (leb s r.time && ltb r.time (s + window))) rs

-- Those that a check at time `u` still has to see.
abbrev pub live_requests : ℕ → ℕ → List Request → ℕ
live_requests k u rs = count_where (λ r. r.key == k && ltb (u - r.time) window) rs

abbrev pub live_times : ℕ → List ℕ → ℕ
live_times u ts = count_where (λ t. ltb (u - t) window) ts

-- The history of every key counts its admitted requests that are still live, now or later.
abbrev pub Remembers : ℕ → Keyed (List ℕ) → List Request → Type 0
Remembers now counters admitted =
    (k u : ℕ) → now ≤ u → live_requests k u admitted ≡ live_times u (history k counters)

live_times-select :
    (now u : ℕ) (ts : List ℕ)
    → now ≤ u
    → live_times u (select (λ t. ltb (now - t) window) ts) ≡ live_times u ts
live_times-select now u [] le = refl
live_times-select now u (t ∷ ts) le = elim (Bool-cases (ltb (now - t) window)) [
  | inl live ↦ rw live (omega (arith, live_times-select now u ts le))
  | inr old ↦
      let gone : ltb (u - t) window ≡ false = ground arith in
      rw (old, gone) (omega (arith, live_times-select now u ts le))
]

pub live_times-now :
    (now : ℕ) (ts : List ℕ) → live_times now ts ≡ length (select (λ t. ltb (now - t) window) ts)
live_times-now now [] = refl
live_times-now now (t ∷ ts) = ground (arith, live_times-now now ts)

live_times-append :
    (u t : ℕ) (ts : List ℕ)
    → live_times u (ts ++ t ∷ []) ≡ live_times u ts + (if ltb (u - t) window then 1 else 0)
live_times-append u t [] = omega arith
live_times-append u t (x ∷ ts) = omega (arith, live_times-append u t ts)

-- Every admitted request in a window that `now` is in is live.
in_window-live :
    (k s now : ℕ) (rs : List Request) → now < s + window → in_window k s rs ≤ live_requests k now rs
in_window-live k s now [] h = omega arith
in_window-live k s now (r ∷ rs) h = ground (arith, in_window-live k s now rs h)

history-upsert :
    (key k : ℕ) (ts : List ℕ) (c : Keyed (List ℕ))
    → history k (upsert key ts c) ≡ (if key == k then ts else history k c)
history-upsert key k ts c = elim (Bool-cases (key == k)) [
  | inl same ↦ rw (lookup-upsert key k ts c, same, history) refl
  | inr differ ↦ rw (lookup-upsert key k ts c, differ, history) refl
]

-- After a check at `now`, whether it adds the request or not.
pub Remembers-refused :
    (before now key : ℕ) (c : Keyed (List ℕ)) (admitted : List Request)
    → before ≤ now
    → Remembers before c admitted
    → Remembers now (upsert key (select (λ t. ltb (now - t) window) (history key c)) c) admitted
Remembers-refused before now key c admitted after remembers k u le =
    let recent = select (λ t. ltb (now - t) window) (history key c) in
    let old = remembers k u (omega arith) in
    elim (Bool-cases (key == k)) [
      | inl same ↦
          let e : k ≡ key = ground arith in
          rw (history-upsert key k recent c, same, live_times-select now u (history key c) le)
            (subst (λ j. live_requests k u admitted ≡ live_times u (history j c)) e old)
      | inr differ ↦ rw (history-upsert key k recent c, differ) old
    ]

pub Remembers-admitted :
    (before : ℕ) (r : Request) (c : Keyed (List ℕ)) (admitted : List Request)
    → before ≤ r.time
    → Remembers before c admitted
    → Remembers r.time
        (upsert r.key (select (λ t. ltb (r.time - t) window) (history r.key c) ++ r.time ∷ []) c)
        (r ∷ admitted)
Remembers-admitted before r c admitted after remembers k u le =
    let recent = select (λ t. ltb (r.time - t) window) (history r.key c) in
    let old = remembers k u (omega arith) in
    let more = live_times-append u r.time recent in
    let kept = live_times-select r.time u (history r.key c) le in
    elim (Bool-cases (r.key == k)) [
      | inl same ↦
          let e : k ≡ r.key = ground arith in
          let old' = subst (λ j. live_requests k u admitted ≡ live_times u (history j c)) e old in
          rw (history-upsert r.key k (recent ++ r.time ∷ []) c, same, more)
            (ground (arith, kept, old'))
      | inr differ ↦
          rw (history-upsert r.key k (recent ++ r.time ∷ []) c, differ) (ground (arith, old))
    ]

-- An admission keeps the bound of its key.
in_window-admitted :
    (k most s before : ℕ) (r : Request) (c : Keyed (List ℕ)) (admitted : List Request)
    → before ≤ r.time
    → ((r.key ≡ k) → r.limit ≤ most)
    → length (select (λ t. ltb (r.time - t) window) (history r.key c)) < r.limit
    → Remembers before c admitted
    → in_window k s admitted ≤ most
    → in_window k s (r ∷ admitted) ≤ most
in_window-admitted k most s before r c admitted after limited room remembers bound =
    elim (Bool-cases (r.key == k && (leb s r.time && ltb r.time (s + window)))) [
      | inr outside ↦ rw outside (omega arith)
      | inl inside ↦
          let same : r.key ≡ k = ground arith in
          let early : r.time < s + window = ground arith in
          let live = in_window-live k s r.time admitted early in
          let seen =
            subst (λ j. live_requests k r.time admitted ≡ live_times r.time (history j c))
              (sym same) (remembers k r.time after) in
          let all = live_times-now r.time (history r.key c) in
          let most_at_least = limited same in rw inside (omega arith)
    ]

-- Requests in the order of their times.
abbrev pub InOrder : ℕ → List Request → Type 0
InOrder now [] = Unit
InOrder now (r ∷ rs) = (now ≤ r.time) × InOrder r.time rs

-- The two outcomes of a check without Redis, while there is room for another key.
pub check_in_process-cases :
    (now key limit : ℕ) (c : Keyed (List ℕ))
    → length c < rate_counter_max_keys
    → let recent = select (λ t. ltb (now - t) window) (history key c) in
      let (result, c') = check_in_process now key limit c in
      ((result.allowed ≡ false) × (c' ≡ upsert key recent c) × (limit ≤ length recent))
      ⊎ ((result.allowed ≡ true)
          × (c' ≡ upsert key (recent ++ now ∷ []) c)
          × (length recent < limit))
unfolding check_in_process
check_in_process-cases now key limit c small =
    let recent = select (λ t. ltb (now - t) window) (history key c) in
    let size = length-upsert key (recent ++ now ∷ []) c in
    let fits : ltb rate_counter_max_keys (length (upsert key (recent ++ now ∷ []) c)) ≡ false =
      ground arith in
    elim (Bool-cases (leb limit (length recent))) [
      | inl full ↦ inl (rw full (refl, refl, ground arith))
      | inr free ↦ inr (rw (free, fits) (refl, refl, ground arith))
    ]

pub serve-bounded :
    (k most : ℕ) (rs : List Request) (before : ℕ) (c : Keyed (List ℕ)) (admitted : List Request)
    → InOrder before rs
    → All (λ r. (r.key ≡ k) → r.limit ≤ most) rs
    → length c + length rs ≤ rate_counter_max_keys
    → Remembers before c admitted
    → ((s : ℕ) → in_window k s admitted ≤ most)
    → (s : ℕ) → in_window k s (serve rs c admitted).0 ≤ most
unfolding serve check_rate_limit
serve-bounded k most [] before c admitted ordered limited small remembers bound s = bound s
serve-bounded k most (r ∷ rs) before c admitted (le, ordered) (first, limited) small remembers bound
      s =
    let recent = select (λ t. ltb (r.time - t) window) (history r.key c) in
    elim (check_in_process-cases r.time r.key r.limit c (omega arith)) [
      | inl (over, stays, full) ↦
          let size = length-upsert r.key recent c in
          rw (over, stays, serve, check_rate_limit)
            (serve-bounded k most rs r.time (upsert r.key recent c) admitted ordered limited
              (omega arith) (Remembers-refused before r.time r.key c admitted le remembers) bound s)
      | inr (lets_in, grows, room) ↦
          let size = length-upsert r.key (recent ++ r.time ∷ []) c in
          rw (lets_in, grows, serve, check_rate_limit)
            (serve-bounded k most rs r.time (upsert r.key (recent ++ r.time ∷ []) c) (r ∷ admitted)
              ordered limited (omega arith) (Remembers-admitted before r c admitted le remembers)
              (λ s'.
                in_window-admitted k most s' before r c admitted le first room remembers (bound s'))
              s)
    ]

-- Of the requests of a process without Redis, at most 10,000 of them and in the order of their times,
-- at most `most` of a key are let in during any 60 seconds, if `most` is at least the limit of each
-- of its requests.
pub serve-within_limit :
    (k most : ℕ) (rs : List Request)
    → InOrder 0 rs
    → All (λ r. (r.key ≡ k) → r.limit ≤ most) rs
    → length rs ≤ rate_counter_max_keys
    → (s : ℕ) → in_window k s (serve rs [] []).0 ≤ most
serve-within_limit k most rs ordered limited small s =
    serve-bounded k most rs 0 [] [] ordered limited (omega arith) (λ j u le. omega arith)
      (λ s'. omega arith) s
