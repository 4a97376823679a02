-- ===== src/Limits/Window/Reference.antt =====
-- The windows as they are meant: a request is let in when fewer than its limit were let in for its key
-- within the last 60 seconds, of all that ever were.
use teardrop.Common.{
  Keyed, List, [], arith, false, if◌then◌else◌, inl, inr, length, length-upsert, ltb, refl, select,
  true, upsert, ℕ, ◌++◌, ◌+◌, ◌-◌, ◌∷◌, ◌≡◌, ◌≤◌,
}
use teardrop.Limits.Window.{
  Request, check_rate_limit, history, rate_counter_max_keys, serve, window,
}
use teardrop.Limits.Window.Bound.{
  InOrder, Remembers, Remembers-admitted, Remembers-refused, check_in_process-cases, live_requests,
  live_times-now,
}

unfoldable pub sliding_window : List Request → List Request → List Request
sliding_window [] admitted = admitted
sliding_window (r ∷ rs) admitted =
    sliding_window rs
      (if ltb (live_requests r.key r.time admitted) r.limit then r ∷ admitted else admitted)

serve-sliding_window_from :
    (rs : List Request) (before : ℕ) (c : Keyed (List ℕ)) (admitted : List Request)
    → InOrder before rs
    → length c + length rs ≤ rate_counter_max_keys
    → Remembers before c admitted
    → (serve rs c admitted).0 ≡ sliding_window rs admitted
unfolding serve check_rate_limit sliding_window
serve-sliding_window_from [] before c admitted ordered small remembers = refl
serve-sliding_window_from (r ∷ rs) before c admitted (le, ordered) small remembers =
    let recent = select (λ t. ltb (r.time - t) window) (history r.key c) in
    let seen = remembers r.key r.time le in
    let all = live_times-now r.time (history r.key c) in
    elim (check_in_process-cases r.time r.key r.limit c (omega arith)) [
      | inl (over, stays, many) ↦
          let size = length-upsert r.key recent c in
          let full : ltb (live_requests r.key r.time admitted) r.limit ≡ false =
            ground (arith, seen, all) in
          rw (over, stays, full, serve, check_rate_limit, sliding_window)
            (serve-sliding_window_from rs r.time (upsert r.key recent c) admitted ordered
              (omega arith) (Remembers-refused before r.time r.key c admitted le remembers))
      | inr (lets_in, grows, room) ↦
          let size = length-upsert r.key (recent ++ r.time ∷ []) c in
          let free : ltb (live_requests r.key r.time admitted) r.limit ≡ true =
            ground (arith, seen, all) in
          rw (lets_in, grows, free, serve, check_rate_limit, sliding_window)
            (serve-sliding_window_from rs r.time (upsert r.key (recent ++ r.time ∷ []) c)
              (r ∷ admitted) ordered (omega arith)
              (Remembers-admitted before r c admitted le remembers))
    ]

-- A process without Redis lets in exactly the requests that the whole history of the process allows,
-- for at most 10,000 requests in the order of their times.
pub serve-sliding_window :
    (rs : List Request)
    → InOrder 0 rs
    → length rs ≤ rate_counter_max_keys
    → (serve rs [] []).0 ≡ sliding_window rs []
serve-sliding_window rs ordered small =
    serve-sliding_window_from rs 0 [] [] ordered (omega arith) (λ k u le. refl)
