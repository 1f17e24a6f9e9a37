-- ===== src/Store/Status/Meaning.antt =====
-- web/lib/store.gcp.ts, `statusFor`: what each status says of the events.
use event_recommender.Prelude.{
  ℕ, suc, ◌+◌, ◌-◌, ◌≤◌, ◌≡◌, ◌↔◌, refl, ◌∙◌, Bool, true, false, ◌&&◌, ◌||◌, List, [], ◌∷◌, any_of,
  length, ltb, arith, if◌then◌else◌,
}
use event_recommender.Prelude.Text.{Text, codes, text_eq, text_le}
use event_recommender.Store.Status.{
  StatusEvent, ready, stale, Counts, no_counts, count_event, count_events, state_of, hours,
  status_for,
}

-- The event was checked at or after the cutoff.
abbrev pub checked_since : (cutoff : Text) → StatusEvent → Bool
checked_since cutoff e = text_le cutoff e.checked_at

-- It was, it starts at the time or later, and it can be booked.
abbrev pub is_served : (cutoff time : Text) → StatusEvent → Bool
is_served cutoff time e =
    text_le cutoff e.checked_at
    && (text_le time e.starts_at && text_eq e.availability (codes "available"))

-- The number of events that pass a test.
pub count_of : (StatusEvent → Bool) → List StatusEvent → ℕ
count_of p [] = 0
count_of p (e ∷ es) = if p e then 1 + count_of p es else count_of p es

one_more : (b : Bool) (m n : ℕ) → (if b then m + 1 else m) + n ≡ m + (if b then 1 + n else n)
one_more true m n = omega arith
one_more false m n = refl

any_one_more : (b : Bool) (n : ℕ) → (b || ltb 0 n) ≡ ltb 0 (if b then 1 + n else n)
any_one_more b n = ground arith

eligible-count :
    (cutoff time : Text) (c : Counts) (es : List StatusEvent)
    → (count_events cutoff time c es).eligible ≡ c.eligible + count_of (is_served cutoff time) es
unfolding count_events count_event count_of
eligible-count cutoff time c [] = omega arith
eligible-count cutoff time c (e ∷ es) =
    eligible-count cutoff time (count_event cutoff time c e) es
    ∙ one_more (is_served cutoff time e) _ _

fresh-count :
    (cutoff time : Text) (c : Counts) (es : List StatusEvent)
    → (count_events cutoff time c es).fresh ≡ c.fresh + count_of (checked_since cutoff) es
unfolding count_events count_event count_of
fresh-count cutoff time c [] = omega arith
fresh-count cutoff time c (e ∷ es) =
    fresh-count cutoff time (count_event cutoff time c e) es ∙ one_more (checked_since cutoff e) _ _

any-count : (p : StatusEvent → Bool) (es : List StatusEvent) → any_of p es ≡ ltb 0 (count_of p es)
unfolding any_of count_of
any-count p [] = refl
any-count p (e ∷ es) = rw (any-count p es) (any_one_more (p e) (count_of p es))

-- An eligible event is fresh, and each counted event is stored.
counts_ordered :
    (cutoff time : Text) (es : List StatusEvent)
    → (count_of (is_served cutoff time) es ≤ count_of (checked_since cutoff) es)
      × (count_of (checked_since cutoff) es ≤ length es)
unfolding count_of
counts_ordered cutoff time [] = (omega arith, omega arith)
counts_ordered cutoff time (e ∷ es) =
    one_more_ordered (checked_since cutoff e) _ _ _ _ (counts_ordered cutoff time es)
  where
    one_more_ordered :
        (f g : Bool) (a b n : ℕ)
        → (a ≤ b) × (b ≤ n)
        → ((if f && g then 1 + a else a) ≤ (if f then 1 + b else b))
          × ((if f then 1 + b else b) ≤ suc n)
    one_more_ordered f g a b n h = ground arith

state_ready : (n e f : ℕ) → (state_of n (0 + e) f ≡ ready) ↔ (ltb 0 e ≡ true)
state_ready n e f = ground arith

state_stale :
    (n e f : ℕ) → e ≤ f → (state_of n (0 + e) (0 + f) ≡ stale) ↔ ((1 ≤ n) × (ltb 0 f ≡ false))
state_stale n e f h = ground arith

-- The status is `ready` exactly if some event was checked in the last 72 hours, has not begun
-- and has the availability 'available', and `stale` exactly if there are events and none was
-- checked in that time; the number of eligible events is the number of those of the first kind,
-- and no larger than the number of stored ones.
pub status_for_meaning :
    (iso : ℕ → Text) (parse : Text → ℕ) (events : List StatusEvent) (now : ℕ)
    → (((status_for iso parse events now).status ≡ ready)
        ↔ (any_of (is_served (iso (now - hours 72)) (iso now)) events ≡ true))
      × (((status_for iso parse events now).status ≡ stale)
          ↔ ((1 ≤ length events) × (any_of (checked_since (iso (now - hours 72))) events ≡ false)))
      × ((status_for iso parse events now).eligible
          ≡ count_of (is_served (iso (now - hours 72)) (iso now)) events)
      × ((status_for iso parse events now).eligible ≤ (status_for iso parse events now).stored)
unfolding status_for
status_for_meaning iso parse events now =
    let cutoff = iso (now - hours 72) in
    let time = iso now in
    let ordered = counts_ordered cutoff time events in
    rw (eligible-count cutoff time no_counts events) (
      rw (fresh-count cutoff time no_counts events) (
        rw (any-count (is_served cutoff time) events) (
          rw (any-count (checked_since cutoff) events) (
            state_ready (length events) (count_of (is_served cutoff time) events) _,
            state_stale (length events) (count_of (is_served cutoff time) events)
                (count_of (checked_since cutoff) events) (omega (arith, ordered)),
            omega arith,
            omega (arith, ordered),
          ))))
