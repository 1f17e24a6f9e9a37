-- ===== src/Store/Limits/Exact.antt =====
-- web/lib/store.gcp.ts, `consumeLimit`: how many requests of a window are admitted.
use event_recommender.Prelude.{
  ℕ, zero, suc, ◌+◌, ◌-◌, ◌≤◌, ◌<◌, ◌≡◌, ◌⊎◌, refl, sym, ap, ◌∙◌, inl, inr, Bool, true, false, ◌&&◌,
  Option, none, some, List, [], ◌∷◌, Result, ok, err, guard, ◌>>◌, ltb, leb, lt→ltb, ltb→lt,
  Bool-cases, All, arith, if◌then◌else◌,
}
use event_recommender.Prelude.Text.{Text, text_eq, text_eq_refl}
use event_recommender.Prelude.Number.{Number, num, is_finite, num_le}
use event_recommender.Store.{Counter, Documents, set_at, set_at-same, set_at-other}
use event_recommender.Store.Limits.{
  consume_limit, count_request, live_count, valid_count, valid_limit,
}
use event_recommender.Store.Limits.Whole.{num_le-num, num_lt-num, safe_num, valid_num, next_num}

pub record LimitCall : Type 0 where
  pub time : ℕ
  pub key : Text
  pub limit : Number
  pub expires_at : Number

abbrev settle : Documents Counter → Result (Bool × Documents Counter) → Bool × Documents Counter
settle limits (ok answer) = answer
settle limits (err e) = (false, limits)

unfoldable pub serve :
    (digest : Text → Text) → Documents Counter → LimitCall → Bool × Documents Counter
serve digest limits c =
    settle limits (consume_limit digest limits c.time c.key c.limit c.expires_at)

-- The number of requests for a path that are admitted.
unfoldable pub admitted :
    (digest : Text → Text) (path : Text) → Documents Counter → List LimitCall → ℕ
admitted digest path limits [] = 0
admitted digest path limits (c ∷ cs) =
    let rest = admitted digest path (serve digest limits c).1 cs in
    if text_eq path (digest c.key) && (serve digest limits c).0 then suc rest else rest

-- The number of requests for a path that come before its window ends.
unfoldable pub in_time : (digest : Text → Text) (path : Text) (window_end : ℕ) → List LimitCall → ℕ
in_time digest path window_end [] = 0
in_time digest path window_end (c ∷ cs) =
    let rest = in_time digest path window_end cs in
    if text_eq path (digest c.key) && ltb c.time window_end then suc rest else rest

-- A request for another path, or one for this window with its limit.
abbrev pub IsFor : (digest : Text → Text) (path : Text) (limit window_end : ℕ) → LimitCall → Type 0
IsFor digest path limit window_end c =
    (text_eq path (digest c.key) ≡ false)
    ⊎ ((path ≡ digest c.key) × (c.limit ≡ num limit) × (c.expires_at ≡ num window_end))

-- The counter of a window after `n` admitted requests.
abbrev counter : ℕ → ℕ → Option Counter
counter window_end zero = none
counter window_end (suc n) = some (record { count = num (suc n); expires_at = num window_end })

live_count-counter :
    (window_end n time : ℕ) → time < window_end → live_count (counter window_end n) time ≡ num n
live_count-counter window_end zero time h = refl
live_count-counter window_end (suc n) time h =
    rw (num_lt-num time window_end) (rw (lt→ltb time window_end h) refl)

-- A request for a window, before and after its end, below its limit and at it.
own_request :
    (limits : Documents Counter) (path : Text) (time limit window_end n : ℕ)
    → limits path ≡ counter window_end n
    → n ≤ limit
    → limit ≤ 9_007_199_254_740_991
    → count_request limits path time (num limit) (num window_end)
      ≡ ok (
          if ltb time window_end && ltb n limit
          then (true, set_at limits path (counter window_end (suc n)))
          else (false, limits))
unfolding count_request
own_request limits path time limit window_end n found small safe =
    elim (Bool-cases (ltb time window_end)) [
      | inr late ↦ rw late (rw (num_le-num window_end time) (rw (late_le late) refl))
      | inl early ↦ rw early (
          rw (num_le-num window_end time) (
            rw (early_le early) (
              rw found (
                rw (live_count-counter window_end n time (ltb→lt time window_end early)) (
                  rw (valid_num n (omega arith)) (
                    rw (num_le-num limit n) (
                      rw (next_num n) (elim (Bool-cases (ltb n limit)) [
                        | inl below ↦ rw below (rw (below_le below) refl)
                        | inr full ↦ rw full (rw (full_le full) refl)
                      ]))))))))
    ]
  where
    late_le : ltb time window_end ≡ false → leb window_end time ≡ true
    late_le h = ground arith

    early_le : ltb time window_end ≡ true → leb window_end time ≡ false
    early_le h = ground arith

    below_le : ltb n limit ≡ true → leb limit n ≡ false
    below_le h = ground arith

    full_le : ltb n limit ≡ false → leb limit n ≡ true
    full_le h = ground arith

valid_window :
    (limit window_end : ℕ)
    → 1 ≤ limit
    → limit ≤ 9_007_199_254_740_991
    → valid_limit (num limit) (num window_end) ≡ true
unfolding is_finite
valid_window limit window_end positive safe =
    rw (safe_num limit safe) (rw (num_lt-num limit 1) (ground arith))

answer_other :
    (limits : Documents Counter) (path own : Text) (next : Option Counter)
    → text_eq path own ≡ false
    → (valid late counted full : Bool)
    → (settle limits (
          guard valid "Invalid request limit"
          >> (if late
              then ok (false, limits)
              else guard counted "Invalid request counter"
                >> (if full then ok (false, limits) else ok (true, set_at limits own next))))).1
        path
      ≡ limits path
answer_other limits path own next other false late counted full = refl
answer_other limits path own next other true true counted full = refl
answer_other limits path own next other true false false full = refl
answer_other limits path own next other true false true true = refl
answer_other limits path own next other true false true false =
    set_at-other limits own path next other

-- A request for another path leaves the counter alone.
serve_other :
    (digest : Text → Text) (limits : Documents Counter) (path : Text) (c : LimitCall)
    → text_eq path (digest c.key) ≡ false
    → (serve digest limits c).1 path ≡ limits path
unfolding serve consume_limit count_request
serve_other digest limits path c other =
    answer_other limits path (digest c.key) _ other (valid_limit c.limit c.expires_at)
      (num_le c.expires_at (num c.time)) (valid_count (live_count (limits (digest c.key)) c.time))
      (num_le c.limit (live_count (limits (digest c.key)) c.time))

serve_own :
    (digest : Text → Text) (limits : Documents Counter) (c : LimitCall) (limit window_end n : ℕ)
    → limits (digest c.key) ≡ counter window_end n
    → n ≤ limit
    → 1 ≤ limit
    → limit ≤ 9_007_199_254_740_991
    → c.limit ≡ num limit
    → c.expires_at ≡ num window_end
    → serve digest limits c ≡ (
        if ltb c.time window_end && ltb n limit
        then (true, set_at limits (digest c.key) (counter window_end (suc n)))
        else (false, limits))
unfolding serve consume_limit
serve_own digest limits c limit window_end n found small positive safe same_limit same_end =
    rw same_limit (
      rw same_end (
        rw (valid_window limit window_end positive safe) (
          ap (settle limits)
            (own_request limits (digest c.key) c.time limit window_end n found small safe))))

one_more :
    (n limit rest : ℕ)
    → ltb n limit ≡ true
    → suc (if leb (suc n + rest) limit then rest else limit - suc n)
      ≡ (if leb (n + suc rest) limit then suc rest else limit - n)
one_more n limit rest below = ground arith

at_limit :
    (n limit rest : ℕ)
    → n ≤ limit
    → ltb n limit ≡ false
    → (if leb (n + rest) limit then rest else limit - n)
      ≡ (if leb (n + suc rest) limit then suc rest else limit - n)
at_limit n limit rest small full = ground arith

-- Once `n` requests of a window have been admitted, of the requests that come before its end as
-- many more are admitted as the limit leaves.
admitted_from :
    (digest : Text → Text) (path : Text) (limit window_end n : ℕ) (limits : Documents Counter)
    (calls : List LimitCall)
    → limits path ≡ counter window_end n
    → n ≤ limit
    → 1 ≤ limit
    → limit ≤ 9_007_199_254_740_991
    → All (IsFor digest path limit window_end) calls
    → admitted digest path limits calls ≡ (
        if leb (n + in_time digest path window_end calls) limit
        then in_time digest path window_end calls
        else limit - n)
unfolding admitted in_time
admitted_from digest path limit window_end n limits [] found small positive safe h = ground arith
admitted_from digest path limit window_end n limits (c ∷ cs) found small positive safe
      (inl other, hs) =
    rw other (
      admitted_from digest path limit window_end n (serve digest limits c).1 cs
        (serve_other digest limits path c other ∙ found) small positive safe hs)
admitted_from digest path limit window_end n limits (c ∷ cs) found small positive safe
      (inr (same, same_limit, same_end), hs) =
    let served = rw (sym same) at (
      serve_own digest limits c limit window_end n (rw same at found) small positive safe same_limit
        same_end) in
    let own : text_eq path (digest c.key) ≡ true = rw (sym same) (text_eq_refl path) in
    rw own (
      rw served (elim (Bool-cases (ltb c.time window_end)) [
        | inr late ↦
            rw late
              (admitted_from digest path limit window_end n limits cs found small positive safe hs)
        | inl early ↦ rw early (elim (Bool-cases (ltb n limit)) [
          | inl below ↦ rw below (
              let next = set_at limits path (counter window_end (suc n)) in
              let rest =
                admitted_from digest path limit window_end (suc n) next cs
                  (set_at-same limits path _) (ground arith) positive safe hs in
              rw rest (one_more n limit (in_time digest path window_end cs) below))
          | inr full ↦ rw full (
              admitted_from digest path limit window_end n limits cs found small positive safe hs
              ∙ at_limit n limit (in_time digest path window_end cs) small full)
        ])
      ]))

-- Of the requests for a window that come before its end, in any order with the requests for
-- other paths, exactly `limit` are admitted, or all of them if they are fewer. The
-- window has no counter at first, and the limit is a whole number that JavaScript counts exactly.
pub limit_is_exact :
    (digest : Text → Text) (path : Text) (limit window_end : ℕ) (limits : Documents Counter)
    (calls : List LimitCall)
    → limits path ≡ none
    → 1 ≤ limit
    → limit ≤ 9_007_199_254_740_991
    → All (IsFor digest path limit window_end) calls
    → admitted digest path limits calls ≡ (
        if leb (in_time digest path window_end calls) limit
        then in_time digest path window_end calls
        else limit)
limit_is_exact digest path limit window_end limits calls fresh positive safe h =
    admitted_from digest path limit window_end 0 limits calls fresh (omega arith) positive safe h
    ∙ ground arith
